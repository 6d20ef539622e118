-- ===== src/Report/Hexadecimal.antt =====
-- What `write_hex` writes reads back, and has no leading zeros.
use coffin.Prelude.{
  ℕ, zero, suc, ◌+◌, ◌-◌, ◌*◌, ◌/◌, ◌%◌, ◌^◌, ◌≤◌, ◌<◌, ◌≡◌, refl, ap, ◌∙◌, ◌≢◌, ◌⊎◌, ◌↔◌, inl, inr,
  Bool-cases, length, List, [], ◌∷◌, arith, leb, ◌==◌, if◌then◌else◌, bit_and, word, pow-pos,
  pow-add, bit_and-low,
}
use native.Mathlib.Nat.{
  add-mul-mod_self_right, div-add-mod, mul-le-mul_right, mod-lt, mod-eq_of_lt, pow-le-pow_right,
  pow-suc, le-div_iff_mul-le,
}
use native.Mathlib.Decide.{dec_lt}
use coffin.Config.{bit_length}
use coffin.Config.Sizes.{IsWidth, bit_length-IsWidth}
use coffin.Report.{hex_digit, nibbles, hex_digits, write_hex}

-- The value of a hexadecimal digit, and of a string of them behind a number already read.
abbrev pub unhex : ℕ → ℕ
unhex c = if leb c b'9' then c - b'0' else c - b'a' + 10

abbrev pub hex_value : ℕ → List ℕ → ℕ
hex_value n [] = n
hex_value n (c ∷ cs) = hex_value (n * 16 + unhex c) cs

unhex-hex_digit : (d : ℕ) → d < 16 → unhex (hex_digit d) ≡ d
unhex-hex_digit d h = ground arith

nibble : (x : ℕ) → bit_and x 0xf ≡ x % 16
nibble x = bit_and-low x 4

-- The remainder by sixteen times a number.
mod-times : (p v : ℕ) → 0 < p → v % (p * 16) ≡ v / p % 16 * p + v % p
mod-times p v h =
    ap (λ t. t % (p * 16)) split
    ∙ add-mul-mod_self_right rest (v / p / 16) (p * 16)
    ∙ mod-eq_of_lt small
  where
    rest : ℕ
    rest = v / p % 16 * p + v % p

    split : v ≡ rest + v / p / 16 * (p * 16)
    split = omega (arith, div-add-mod v p, ap (λ t. t * p) (div-add-mod (v / p) 16))

    small : rest < p * 16
    small = omega (arith, mod-lt v h, mul-le-mul_right p bound)
      where
        bound : v / p % 16 ≤ 15
        bound = omega arith

hex_digits-value :
    (left v n : ℕ) → hex_value n (hex_digits left v) ≡ n * 2 ^ (left * 4) + v % 2 ^ (left * 4)
unfolding hex_digits
hex_digits-value zero v n = omega arith
hex_digits-value (suc left) v n =
    rw
      (
        nibble,
        unhex-hex_digit (v / 2 ^ (left * 4) % 16) (mod-lt _ (omega arith)),
        hex_digits-value left v,
      )
      (omega (
        arith,
        wide,
        ap (λ t. n * t) wide,
        ap (λ t. v % t) wide,
        mod-times (2 ^ (left * 4)) v (pow-pos (left * 4)),
      ))
  where
    wide : 2 ^ (suc left * 4) ≡ 2 ^ (left * 4) * 16
    wide = ap (λ e. 2 ^ e) turn ∙ pow-add 2 (left * 4) 4
      where
        turn : suc left * 4 ≡ left * 4 + 4
        turn = omega arith

length-hex_digits : (left v : ℕ) → length (hex_digits left v) ≡ left
unfolding hex_digits
length-hex_digits zero v = refl
length-hex_digits (suc left) v = omega (arith, length-hex_digits left v)

-- The first character of a text.
abbrev pub first_byte : List ℕ → ℕ
first_byte [] = 0
first_byte (c ∷ cs) = c

hex_digit-ne : (d : ℕ) → 0 < d → d < 16 → hex_digit d ≢ b'0'
hex_digit-ne d lo hi = ground arith

-- With exactly as many digits as the number needs, the first one is not zero.
hex_digits-first :
    (m v : ℕ) → 2 ^ (m * 4) ≤ v → v < 2 ^ (suc m * 4) → first_byte (hex_digits (suc m) v) ≢ b'0'
unfolding hex_digits
hex_digits-first m v lo hi =
    rw nibble (hex_digit-ne (v / 2 ^ (m * 4) % 16) low (mod-lt _ (omega arith)))
  where
    atleast : (c : ℕ) → (c ≤ v / 2 ^ (m * 4)) ↔ (c * 2 ^ (m * 4) ≤ v)
    atleast c = le-div_iff_mul-le (pow-pos (m * 4))

    one : 1 ≤ v / 2 ^ (m * 4)
    one = (atleast 1).1 (omega arith)

    wide : 2 ^ (suc m * 4) ≡ 2 ^ (m * 4) * 16
    wide = ap (λ e. 2 ^ e) turn ∙ pow-add 2 (m * 4) 4
      where
        turn : suc m * 4 ≡ m * 4 + 4
        turn = omega arith

    low : 0 < v / 2 ^ (m * 4) % 16
    low = elim (dec_lt (v / 2 ^ (m * 4)) 16) [
      | yes p ↦ omega (arith, one)
      | no p ↦ absurd (omega (arith, wide, (atleast 16).0 (omega arith)))
    ]

-- How many digits a number of a width needs.
digits_of_width :
    (v b : ℕ)
    → IsWidth 64 v b
    → 0 < v
    → (m : ℕ) × ((b + 3) / 4 ≡ suc m) × (m ≤ 15) × (2 ^ (m * 4) ≤ v) × (v < 2 ^ (suc m * 4))
digits_of_width v zero w p = absurd (omega (arith, w.holds))
digits_of_width v (suc b) w p = (
  (suc b + 3) / 4 - 1,
  omega arith,
  omega (arith, w.within),
  omega (
    arith,
    w.least p,
    pow-suc 2 b,
    pow-le-pow_right {n = 2} (omega arith) {i = ((suc b + 3) / 4 - 1) * 4} {j = b} (omega arith),
  ),
  omega (
    arith,
    w.holds,
    pow-le-pow_right {n = 2} (omega arith) {i = suc b} {j = suc ((suc b + 3) / 4 - 1) * 4}
        (omega arith),
  ),
)

nibbles-of_word :
    (v : ℕ)
    → v < word
    → 0 < v
    → (m : ℕ) × (nibbles v ≡ suc m) × (m ≤ 15) × (2 ^ (m * 4) ≤ v) × (v < 2 ^ (suc m * 4))
unfolding nibbles
nibbles-of_word v h = digits_of_width v (bit_length 64 v) (bit_length-IsWidth 64 v h)

-- The digits of a word: one to sixteen, which stand for it, with no zero in front but the number zero
-- itself.
pub record IsHex (v : ℕ) (ds : List ℕ) : Type 0 where
  pub stands : hex_value 0 ds ≡ v
  pub some_digit : 0 < length ds
  pub fits : length ds ≤ 16
  pub no_zeros : (ds ≡ b'0' ∷ []) ⊎ (first_byte ds ≢ b'0')

-- The text that `write_hex` writes of a word is `0x` and one to sixteen hexadecimal digits that stand
-- for the word, of which the first is zero only in the text of zero.
pub write_hex-IsHex :
    (v : ℕ) → v < word → (ds : List ℕ) × (write_hex v ≡ b'0' ∷ b'x' ∷ ds) × IsHex v ds
unfolding write_hex
write_hex-IsHex v h = elim (Bool-cases (v == 0)) [
  | inl z ↦ (
    b'0' ∷ [],
    rw (z, write_hex) refl,
    record {
      stands = ground arith;
      some_digit = omega arith;
      fits = omega arith;
      no_zeros = inl refl;
    },
  )
  | inr nz ↦
      let (m, e, small, lo, hi) = nibbles-of_word v h (ground arith) in
      (
        hex_digits (suc m) v,
        rw (nz, write_hex, e) refl,
        record {
          stands = omega (arith, hex_digits-value (suc m) v 0, mod-eq_of_lt hi);
          some_digit = omega (arith, length-hex_digits (suc m) v);
          fits = omega (arith, length-hex_digits (suc m) v);
          no_zeros = inr (hex_digits-first m v lo hi);
        },
      )
]
