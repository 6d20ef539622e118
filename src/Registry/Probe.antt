-- ===== src/Registry/Probe.antt =====
-- Probing: where the sequence of slots goes, and what the two loops find on it.
use coffin.Prelude.{
  ℕ, zero, suc, ◌+◌, ◌-◌, ◌%◌, ◌^◌, ◌≤◌, ◌<◌, ◌≡◌, ap, ◌∙◌, true, false, none, some, arith, ◌==◌,
  if◌then◌else◌, pow-pos, bit_and, bit_and-low, wrapping_add,
}
use native.Mathlib.Nat.{pow-le-pow_right, mod-lt, mod_self, mod-eq_of_lt}
use Prim.Native.Nat.add
use native.Mathlib.Decide.{dec_lt}
use coffin.Registry.{hash, is_vacant, Region, home, next, find_vacant, find_from}

-- A table of 2 ^ k slots, with its mask.
pub record IsTable (k cap mask : ℕ) : Type 0 where
  pub cap_pow : cap ≡ 2 ^ k
  pub mask_low : mask ≡ cap - 1
  pub exponent : k ≤ 63

module _ {k cap mask : ℕ} (t : IsTable k cap mask) where
  masked : (x : ℕ) → bit_and x mask ≡ x % cap
  masked x = rw (t.mask_low, t.cap_pow) (bit_and-low x k)

  pub cap-pos : 0 < cap
  cap-pos = rw t.cap_pow (pow-pos k)

  cap-le : cap ≤ 2 ^ 63
  cap-le = rw t.cap_pow (pow-le-pow_right {n = 2} (omega arith) t.exponent)

  pub home-mod : (ptr : ℕ) → home mask ptr ≡ hash ptr % cap
  unfolding home
  home-mod ptr = masked (hash ptr)

  pub home-lt : (ptr : ℕ) → home mask ptr < cap
  unfolding home
  home-lt ptr = rw (masked (hash ptr)) (mod-lt (hash ptr) cap-pos)

  -- The next slot, round the end of the table.
  pub next-eq : (i : ℕ) → i < cap → next mask i ≡ (if i + 1 == cap then 0 else i + 1)
  unfolding next
  next-eq i h = masked (wrapping_add i 1) ∙ turn
    where
      turn : wrapping_add i 1 % cap ≡ (if i + 1 == cap then 0 else i + 1)
      turn = ground (arith, cap-le, mod_self cap, mod-eq_of_lt {n = i + 1} {m = cap})

  pub next-lt : (i : ℕ) → i < cap → next mask i < cap
  next-lt i h = ground (arith, next-eq i h)

  next-inside : (i : ℕ) → i + 1 < cap → next mask i ≡ i + 1
  next-inside i h = ground (arith, next-eq i)

  next-end : (i : ℕ) → i + 1 ≡ cap → next mask i ≡ 0
  next-end i h = ground (arith, next-eq i)

-- The slot that a probe reaches after some steps.
steps : ℕ → ℕ → ℕ → ℕ
steps mask zero i = i
steps mask (suc n) i = steps mask n (next mask i)

module _ {k cap mask : ℕ} (t : IsTable k cap mask) where
  steps-add : (n i : ℕ) → i + n < cap → steps mask n i ≡ i + n
  unfolding steps
  steps-add zero i h = omega arith
  steps-add (suc n) i h =
      rw (next-inside t i (omega arith)) (steps-add n (i + 1) (omega arith) ∙ omega arith)

  steps_wrap : (n i j : ℕ) → i + suc n ≡ cap → j < cap → steps mask (suc (n + j)) i ≡ j
  unfolding steps
  steps_wrap zero i j h hj =
      rw (add.zero j, next-end t i (omega arith)) (steps-add j 0 (omega arith) ∙ omega arith)
  steps_wrap (suc n) i j h hj =
      ap (λ m. steps mask m (next mask i)) (add.suc n j)
      ∙ ap (steps mask (suc (n + j))) (next-inside t i (omega arith))
      ∙ steps_wrap n (i + 1) j (omega arith) hj

  -- From any slot a probe of `cap` rounds comes to every slot.
  steps_cover : (i j : ℕ) → i < cap → j < cap → (n : ℕ) × (n < cap) × (steps mask n i ≡ j)
  steps_cover i j hi hj = elim (dec_lt j i) [
    | yes p ↦ (suc (cap - i - 1 + j), omega arith, steps_wrap (cap - i - 1) i j (omega arith) hj)
    | no p ↦ (j - i, omega arith, steps-add (j - i) i (omega arith) ∙ omega arith)
  ]

  module _ (slots : ℕ → Region) where
    -- The slot that `insert` takes is in the table and vacant.
    pub find_vacant-some :
        (n i : ℕ) {j : ℕ}
        → i < cap
        → find_vacant slots mask n i ≡ some j
        → (j < cap) × (is_vacant (slots j).state ≡ true)
    unfolding find_vacant
    find_vacant-some zero i h e = cc
    find_vacant-some (suc n) i {j} h e =
        ground (arith, find_vacant-some n (next mask i) {j = j}, next-lt t i h)

    -- If `insert` finds no slot, none that it came to is vacant.
    find_vacant-none-steps :
        (n m i : ℕ)
        → find_vacant slots mask n i ≡ none
        → m < n
        → is_vacant (slots (steps mask m i)).state ≡ false
    unfolding find_vacant steps
    find_vacant-none-steps zero m i e h = absurd (omega arith)
    find_vacant-none-steps (suc n) zero i e h = ground arith
    find_vacant-none-steps (suc n) (suc m) i e h =
        ground (arith, find_vacant-none-steps n m (next mask i))

    -- So the table is full.
    pub find_vacant-none :
        (i j : ℕ)
        → i < cap
        → find_vacant slots mask cap i ≡ none
        → j < cap
        → is_vacant (slots j).state ≡ false
    find_vacant-none i j h e hj =
        let (m, lt, at) = steps_cover i j h hj in rw (← at) (find_vacant-none-steps cap m i e lt)

    -- The slot that a lookup returns is in the table, tracked, and has the key.
    pub find_from-some :
        (ptr n i : ℕ) {j : ℕ}
        → i < cap
        → find_from slots mask ptr n i ≡ some j
        → (j < cap) × (is_vacant (slots j).state ≡ false) × ((slots j).user_ptr ≡ ptr)
    unfolding find_from
    find_from-some ptr zero i h e = cc
    find_from-some ptr (suc n) i {j} h e =
        ground (arith, find_from-some ptr n (next mask i) {j = j}, next-lt t i h)
