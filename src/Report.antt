-- ===== src/Report.antt =====
-- src/report.rs: numbers as text, and the loop around `write`.
use coffin.Prelude.{
  ℕ, zero, suc, ◌+◌, ◌-◌, ◌*◌, ◌/◌, ◌%◌, ◌^◌, Bool, true, false, List, [], ◌∷◌, ◌++◌, ltb, leb,
  ◌==◌, if◌then◌else◌, bit_and, word,
}
pub mod Decimal
pub mod Hexadecimal
pub mod Output
pub mod Tests
use coffin.Config.{bit_length}

-- The digits of the loop of `write_dec`, written into the buffer from its end on.
unfoldable pub dec_digits : ℕ → ℕ → List ℕ → List ℕ
dec_digits zero v buf = buf
dec_digits (suc fuel) v buf =
    let rest = dec_digits fuel (v / 10) ((b'0' + v % 10) ∷ buf) in if v == 0 then buf else rest

-- The bytes that `write_dec` writes: its buffer has room for 20 digits.
unfoldable pub write_dec : ℕ → List ℕ
write_dec v = if v == 0 then b'0' ∷ [] else dec_digits 20 v []

-- `HEX[d]`
abbrev pub hex_digit : ℕ → ℕ
hex_digit d = if ltb d 10 then b'0' + d else b'a' + (d - 10)

-- `((usize::BITS - v.leading_zeros()) as usize).div_ceil(4)`
unfoldable pub nibbles : ℕ → ℕ
unfolding bit_length
nibbles v = (bit_length 64 v + 3) / 4

-- The loop of `write_hex`, with the rounds left; the shift is four times what is left after this one.
unfoldable pub hex_digits : ℕ → ℕ → List ℕ
hex_digits zero v = []
hex_digits (suc left) v = hex_digit (bit_and (v / 2 ^ (left * 4)) 0xf) ∷ hex_digits left v

unfoldable pub write_hex : ℕ → List ℕ
write_hex v = b'0' ∷ b'x' ∷ (if v == 0 then b'0' ∷ [] else hex_digits (nibbles v) v)
