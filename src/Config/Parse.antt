-- ===== src/Config/Parse.antt =====
-- What the digit loop reads: the number of its leading digits, held at the greatest value.
use coffin.Prelude.{
  ℕ, ◌+◌, ◌-◌, ◌*◌, ◌≤◌, ◌<◌, ◌≡◌, refl, ap, ◌∙◌, Bool, true, false, ◌||◌, ◌&&◌, Option, none, some,
  inl, inr, List, [], ◌∷◌, arith, Bool-cases, Option-cases, ltb, ◌==◌, if◌then◌else◌, word,
}
use Prim.Native.Nat.{min}
use mathlib.Core.Path.{ap₂}
use native.Mathlib.Decide.{dec_le}
use coffin.Config.{
  is_digit, saturating_step, parse_digits, parse_usize_env, abort_with_signal, exit, on_fault,
  exit_prefix, strip_prefix, i32_max,
}

-- The number that a string of digits stands for, read behind a number already read.
abbrev pub value : ℕ → List ℕ → ℕ
value n [] = n
value n (d ∷ ds) = value (n * 10 + (d - b'0')) ds

-- The leading digits of a string.
abbrev pub digits : List ℕ → List ℕ
digits [] = []
digits (b ∷ bs) = if is_digit b then b ∷ digits bs else []

abbrev pub has_any : List ℕ → Bool
has_any [] = false
has_any (b ∷ bs) = true

value-ge : (n : ℕ) (ds : List ℕ) → n ≤ value n ds
value-ge n [] = omega arith
value-ge n (d ∷ ds) = omega (arith, value-ge (n * 10 + (d - b'0')) ds)

-- Holding the number at the greatest value on the way changes nothing at the end.
value-min : (top m : ℕ) (ds : List ℕ) → min (value (min m top) ds) top ≡ min (value m ds) top
value-min top m ds = elim (dec_le m top) [
  | yes h ↦ ap (λ t. min (value t ds) top) (omega arith)
  | no h ↦
      let e : min m top ≡ top = omega arith in rw e (omega (arith, value-ge top ds, value-ge m ds))
]

-- The loop stops behind the leading digits and returns their number, or `top` if that is less.
pub parse_digits_lem :
    (top : ℕ) (bytes : List ℕ) (n : ℕ) (seen : Bool)
    → n ≤ top
    → parse_digits top bytes n seen
      ≡ (min (value n (digits bytes)) top, seen || has_any (digits bytes))
unfolding parse_digits
parse_digits_lem top [] n seen h = ap₂ (λ (m : ℕ) (b : Bool). (m, b)) (omega arith) (ground arith)
parse_digits_lem top (b ∷ bs) n seen h = elim (Bool-cases (is_digit b)) [
  | inl d ↦
      rw (d, parse_digits)
        (parse_digits_lem top bs (saturating_step top n (b - b'0')) true (omega arith)
          ∙ ap₂ (λ (m : ℕ) (s : Bool). (m, s)) held (ground arith))
  | inr d ↦ rw (d, parse_digits) (ap₂ (λ (m : ℕ) (s : Bool). (m, s)) (omega arith) (ground arith))
]
  where
    held :
        min (value (saturating_step top n (b - b'0')) (digits bs)) top
        ≡ min (value (n * 10 + (b - b'0')) (digits bs)) top
    held =
        ap (λ t. min (value t (digits bs)) top) step
        ∙ value-min top (n * 10 + (b - b'0')) (digits bs)
      where
        step : saturating_step top n (b - b'0') ≡ min (n * 10 + (b - b'0')) top
        step = omega arith

-- `parse_usize_env` of a variable that is set is the number of its leading digits, held at the
-- greatest `usize`; it is the default if that number is zero, also if there is no digit.
pub parse_usize_env_lem :
    (bytes : List ℕ) (default : ℕ)
    → parse_usize_env (some bytes) default
      ≡ (let v = value 0 (digits bytes) in if v == 0 then default else min v (word - 1))
unfolding parse_usize_env
parse_usize_env_lem bytes default =
    rw (parse_digits_lem (word - 1) bytes 0 false (omega arith), parse_usize_env)
      (go (digits bytes))
  where
    go :
        (ds : List ℕ)
        → (if has_any ds && ltb 0 (min (value 0 ds) (word - 1))
            then min (value 0 ds) (word - 1)
            else default)
          ≡ (if value 0 ds == 0 then default else min (value 0 ds) (word - 1))
    go [] = refl
    go (d ∷ ds) = ground arith

-- The parsed number is a positive word, if the default is.
pub parse_usize_env_bounds :
    (v : Option (List ℕ)) (default : ℕ)
    → 0 < default
    → default < word
    → (0 < parse_usize_env v default) × (parse_usize_env v default < word)
unfolding parse_usize_env
parse_usize_env_bounds none default lo hi = (lo, hi)
parse_usize_env_bounds (some bytes) default lo hi =
    rw (parse_usize_env_lem bytes default) (ground arith)

-- A value of COFFIN_ON_FAULT that begins with `exit:` and a digit asks for an exit code, the number of
-- the leading digits behind the colon, held at the greatest `i32`; every other value asks for the
-- signal.
pub on_fault_lem :
    (bytes : List ℕ)
    → on_fault (some bytes) ≡ elim (strip_prefix exit_prefix bytes) [
      | none ↦ abort_with_signal
      | some rest ↦
          if has_any (digits rest)
          then exit (min (value 0 (digits rest)) i32_max)
          else abort_with_signal
    ]
unfolding on_fault
on_fault_lem bytes = elim (Option-cases (strip_prefix exit_prefix bytes)) [
  | inl e ↦ rw (e, on_fault)
  | inr (rest, e) ↦ rw (e, on_fault, parse_digits_lem i32_max rest 0 false (omega arith))
]
