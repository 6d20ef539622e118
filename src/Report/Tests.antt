-- ===== src/Report/Tests.antt =====
-- Numbers as text, and what a slow descriptor gets of them.
use coffin.Prelude.{
  ℕ, ◌≡◌, refl, some, List, [], ◌∷◌, ◌++◌, arith, Option, none, length, take, ◌+◌, ◌<◌, ◌≤◌, ◌≢◌,
}
use coffin.Config.{parse_usize_env}
use coffin.Report.{dec_digits, write_dec, write_hex}
use coffin.Report.Decimal.{parse-write_dec}
use coffin.Report.Output.{raw_write_fd}
use coffin.Report.Output.Written.{IsWrite, IsCut, counted, raw_write_fd-writes, raw_write_fd-all}
use coffin.Report.Hexadecimal.{IsHex, write_hex-IsHex}

abbrev line_end : List ℕ
line_end = 10 ∷ []

parse-write_dec_example : parse_usize_env (some (write_dec 4096 ++ line_end)) 7 ≡ 4096
parse-write_dec_example = parse-write_dec 4096 7 line_end (omega arith) (omega arith) refl

write_dec_test : write_dec 4096 ≡ b'4' ∷ b'0' ∷ b'9' ∷ b'6' ∷ []
unfolding write_dec dec_digits
write_dec_test = refl

write_hex-IsHex_example : (ds : List ℕ) × (write_hex 0x10ff0 ≡ b'0' ∷ b'x' ∷ ds) × IsHex 0x10ff0 ds
write_hex-IsHex_example = write_hex-IsHex 0x10ff0 (omega arith)

-- A descriptor that takes two bytes at a time.
abbrev pipe : ℕ → List ℕ → List ℕ → Option ℕ × List ℕ
pipe fd [] w = (none, w)
pipe fd (x ∷ []) w = (some 1, w ++ x ∷ [])
pipe fd (x ∷ y ∷ bytes) w = (some 2, w ++ x ∷ y ∷ [])

pipe-taken :
    (bytes w : List ℕ) (n : ℕ)
    → 0 < length bytes
    → (pipe 2 bytes w).0 ≡ some n
    → (0 < n) × (n ≤ length bytes)
pipe-taken [] w n h e = absurd (omega arith)
pipe-taken (x ∷ []) w n h e = ground arith
pipe-taken (x ∷ y ∷ bytes) w n h e = ground arith

pipe-appended :
    (bytes w : List ℕ) (n : ℕ)
    → (pipe 2 bytes w).0 ≡ some n
    → (pipe 2 bytes w).1 ≡ w ++ take n bytes
pipe-appended [] w n e = cc
pipe-appended (x ∷ []) w n e = let k : n ≡ 1 = ground arith in rw k refl
pipe-appended (x ∷ y ∷ bytes) w n e = let k : n ≡ 2 = ground arith in rw k refl

pipe-refused : (bytes w : List ℕ) → (pipe 2 bytes w).0 ≡ none → (pipe 2 bytes w).1 ≡ w
pipe-refused [] w e = refl
pipe-refused (x ∷ []) w e = cc
pipe-refused (x ∷ y ∷ bytes) w e = cc

pipe-takes : (bytes w : List ℕ) → 0 < length bytes → (pipe 2 bytes w).0 ≢ none
pipe-takes [] w h e = absurd (omega arith)
pipe-takes (x ∷ []) w h e = cc
pipe-takes (x ∷ y ∷ bytes) w h e = cc

abbrev pipe-IsWrite : IsWrite pipe 2
pipe-IsWrite = record {
  output = λ w. w;
  some_bytes = pipe-taken;
  appended = pipe-appended;
  refused = pipe-refused;
}

abbrev message : List (List ℕ)
message = (1 ∷ 2 ∷ 3 ∷ []) ∷ [] ∷ (4 ∷ []) ∷ []

raw_write_fd-writes_example :
    (w : List ℕ) × (bytes : List ℕ) × (c : ℕ) × (raw_write_fd pipe 2 message (9 ∷ []) ≡ some w)
    × (raw_write_fd (counted pipe) 2 message (9 ∷ [], 0) ≡ some (w, 0 + c))
    × (c ≤ 4)
    × (w ≡ 9 ∷ bytes)
    × IsCut message bytes
raw_write_fd-writes_example = raw_write_fd-writes pipe-IsWrite message (9 ∷ []) 0

raw_write_fd-all_test :
    (w : List ℕ) × (raw_write_fd pipe 2 message (9 ∷ []) ≡ some w) × (w ≡ 9 ∷ 1 ∷ 2 ∷ 3 ∷ 4 ∷ [])
raw_write_fd-all_test = raw_write_fd-all pipe-IsWrite message (9 ∷ []) pipe-takes
