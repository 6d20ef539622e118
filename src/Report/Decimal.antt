-- ===== src/Report/Decimal.antt =====
-- What `write_dec` writes reads back.
use coffin.Prelude.{
  ℕ, zero, suc, ◌+◌, ◌/◌, ◌%◌, ◌^◌, ◌≤◌, ◌<◌, ◌≡◌, refl, ap, ◌∙◌, true, false, some, inl, inr, List,
  [], ◌∷◌, ◌++◌, arith, Bool-cases, length, ◌==◌, word,
}
use native.Mathlib.Nat.{pow-suc}
use coffin.Config.{is_digit, parse_usize_env}
use coffin.Config.Parse.{value, digits, parse_usize_env_lem}
use coffin.Report.{dec_digits, write_dec}

abbrev pub AllDigits : List ℕ → Type 0
AllDigits [] = Unit
AllDigits (d ∷ ds) = (is_digit d ≡ true) × AllDigits ds

-- The loop writes digits that stand for its number in front of the buffer.
dec_digits-value :
    (fuel v : ℕ) (buf : List ℕ)
    → v < 10 ^ fuel
    → AllDigits buf
    → AllDigits (dec_digits fuel v buf) × (value 0 (dec_digits fuel v buf) ≡ value v buf)
unfolding dec_digits
dec_digits-value zero v buf h ok = (ok, ap (λ t. value t buf) (omega arith))
dec_digits-value (suc fuel) v buf h ok = elim (Bool-cases (v == 0)) [
  | inl z ↦ rw (z, dec_digits) (ok, ap (λ t. value t buf) (ground arith))
  | inr nz ↦
      let ih =
        dec_digits-value fuel (v / 10) ((b'0' + v % 10) ∷ buf) (omega (arith, pow-suc 10 fuel))
          (ground arith, ok) in
      rw (nz, dec_digits) (ih.0, ih.1 ∙ ap (λ t. value t buf) (omega arith))
]

-- The decimal text of a word: digits that stand for it.
pub write_dec-value : (v : ℕ) → v < word → AllDigits (write_dec v) × (value 0 (write_dec v) ≡ v)
unfolding write_dec
write_dec-value v h = elim (Bool-cases (v == 0)) [
  | inl z ↦ rw (z, write_dec) ((refl, tt), ground arith)
  | inr nz ↦ rw (nz, write_dec) (dec_digits-value 20 v [] (omega arith) tt)
]

-- No digit follows.
abbrev pub EndsNumber : List ℕ → Type 0
EndsNumber [] = Unit
EndsNumber (b ∷ bs) = is_digit b ≡ false

digits-append : (ds rest : List ℕ) → AllDigits ds → EndsNumber rest → digits (ds ++ rest) ≡ ds
digits-append [] [] ok e = refl
digits-append [] (b ∷ bs) ok e = rw e
digits-append (d ∷ ds) rest ok e = rw ok.0 (ap (λ t. d ∷ t) (digits-append ds rest ok.1 e))

-- The text that `write_dec` writes of a positive word, with no digit behind it, is read back by
-- `parse_usize_env` as that word.
pub parse-write_dec :
    (v default : ℕ) (rest : List ℕ)
    → 0 < v
    → v < word
    → EndsNumber rest
    → parse_usize_env (some (write_dec v ++ rest)) default ≡ v
parse-write_dec v default rest lo hi e =
    rw
      (
        parse_usize_env_lem,
        digits-append (write_dec v) rest (write_dec-value v hi).0 e,
        (write_dec-value v hi).1,
      )
      (ground arith)

-- The loop writes as many bytes as the buffer has, at most.
dec_digits-length : (fuel v : ℕ) (buf : List ℕ) → length (dec_digits fuel v buf) ≤ fuel + length buf
unfolding dec_digits
dec_digits-length zero v buf = omega arith
dec_digits-length (suc fuel) v buf =
    ground (arith, dec_digits-length fuel (v / 10) ((b'0' + v % 10) ∷ buf))
