-- ===== src/Config/Sizes.antt =====
-- The sizes of the table and of the ring.
use coffin.Prelude.{
  ℕ, zero, suc, ◌+◌, ◌-◌, ◌*◌, ◌/◌, ◌%◌, ◌^◌, ◌≤◌, ◌<◌, ◌≡◌, refl, ap, ◌∙◌, Option, inl, inr, List,
  arith, Bool-cases, le→leb, leb-false, ◌==◌, word,
}
use Prim.Native.Nat.{max}
use native.Mathlib.Nat.{pow-suc, mod-eq_of_lt, pow-le-pow_right}
use native.Mathlib.Numerals.{add-one}
use native.Mathlib.Decide.{dec_lt, ℕ_discrete}
use coffin.Config.{bit_length, next_pow2, default_max_live, max_live_slots, parse_usize_env}

bit_length-zero : (fuel : ℕ) → bit_length fuel 0 ≡ 0
unfolding bit_length
bit_length-zero zero = refl
bit_length-zero (suc fuel) = refl

-- The least number of bits that hold the number.
pub record IsWidth (fuel x b : ℕ) : Type 0 where
  pub holds : x < 2 ^ b
  pub least : 0 < x → 2 ^ b ≤ 2 * x
  pub within : b ≤ fuel

-- One more bit than the half has.
IsWidth-step :
    (fuel x b : ℕ)
    → IsWidth fuel (x / 2) b
    → (x / 2 ≡ 0 → b ≡ 0)
    → 0 < x
    → IsWidth (suc fuel) x (b + 1)
IsWidth-step fuel x b w none_left p = rw add-one (record {
  holds = rw pow-suc (omega (arith, w));
  least = λ _. rw pow-suc (bound (dec_lt 0 (x / 2)));
  within = omega (arith, w);
})
  where
    bound : Dec (0 < x / 2) → 2 ^ b * 2 ≤ 2 * x
    bound (yes h) = omega (arith, w.least h)
    bound (no h) =
        let e : b ≡ 0 = none_left (omega arith) in
        let one : 2 ^ b ≡ 1 = ap (λ t. 2 ^ t) e in omega arith

pub bit_length-IsWidth : (fuel x : ℕ) → x < 2 ^ fuel → IsWidth fuel x (bit_length fuel x)
unfolding bit_length
bit_length-IsWidth zero x h = record { holds = h; least = λ p. omega arith; within = omega arith }
bit_length-IsWidth (suc fuel) x h =
    let ih = bit_length-IsWidth fuel (x / 2) (omega (arith, pow-suc 2 fuel)) in
    elim (Bool-cases (x == 0)) [
      | inl z ↦
          rw (z, bit_length)
            (record {
              holds = ground arith;
              least = λ p. absurd (ground arith);
              within = omega arith;
            })
      | inr nz ↦
          rw (nz, bit_length)
            (IsWidth-step fuel x _ ih (λ e. ap (bit_length fuel) e ∙ bit_length-zero fuel)
              (ground arith))
    ]

-- Widths below and at 64.
width-lt : (b : ℕ) → b ≤ 64 → 2 ^ b < word → b < 64
width-lt b h lt = elim (ℕ_discrete b 64) [
  | yes e ↦ let full : 2 ^ b ≡ word = ap (λ t. 2 ^ t) e in absurd (omega arith)
  | no ne ↦ omega arith
]

width-eq : (b : ℕ) → b ≤ 64 → 2 ^ 63 < 2 ^ b → b ≡ 64
width-eq b h lt = elim (dec_lt b 64) [
  | yes p ↦
      absurd (omega (arith, pow-le-pow_right {n = 2} (omega arith) {i = b} {j = 63} (omega arith)))
  | no p ↦ omega arith
]

-- Up to 2 ^ 63, `next_pow2` is 2 ^ k with k at most 63; this is no less than its argument, and it is
-- less than twice the argument, or 1.
pub next_pow2_lem :
    (x : ℕ)
    → x ≤ 2 ^ 63
    → (k : ℕ) × (next_pow2 x ≡ 2 ^ k) × (k ≤ 63) × (x ≤ 2 ^ k) × (2 ^ k < max 2 (2 * x))
unfolding next_pow2
next_pow2_lem x h = elim (dec_lt 1 x) [
  | no p ↦ (0, rw (le→leb x 1 (omega arith), next_pow2), omega arith, omega arith, omega arith)
  | yes p ↦
      let w = bit_length-IsWidth 64 (x - 1) (omega arith) in
      (
        bit_length 64 (x - 1),
        rw (leb-false x 1 p, next_pow2)
            (ap (λ t. 2 ^ t) (mod-eq_of_lt {n = bit_length 64 (x - 1)} {m = 64} (short p w))),
        omega (arith, short p w),
        omega (arith, w),
        omega (arith, w.least (omega arith)),
      )
]
  where
    short : 1 < x → IsWidth 64 (x - 1) (bit_length 64 (x - 1)) → bit_length 64 (x - 1) < 64
    short p w = width-lt _ w.within (omega (arith, w.least (omega arith)))

-- For a word above 2 ^ 63 the result of `next_pow2` is 1.
pub next_pow2_wraps : (x : ℕ) → 2 ^ 63 < x → x < word → next_pow2 x ≡ 1
unfolding next_pow2
next_pow2_wraps x lo hi =
    let w = bit_length-IsWidth 64 (x - 1) (omega arith) in
    rw (leb-false x 1 (omega arith), next_pow2)
      (ap (λ t. 2 ^ (t % 64)) (width-eq (bit_length 64 (x - 1)) w.within (omega (arith, w))))

-- If COFFIN_MAX_LIVE asks for at most 2 ^ 63 slots, the table has 2 ^ k slots with k at most 63, and
-- at least as many as asked for.
pub max_live_slots_lem :
    (v : Option (List ℕ))
    → parse_usize_env v default_max_live ≤ 2 ^ 63
    → (k : ℕ) × (max_live_slots v ≡ 2 ^ k) × (k ≤ 63) × (parse_usize_env v default_max_live ≤ 2 ^ k)
unfolding max_live_slots
max_live_slots_lem v h = let (k, e, small, enough, _) = next_pow2_lem _ h in (k, e, small, enough)
