-- ===== src/Config.antt =====
-- src/config.rs: what the environment says, read once.
pub mod Parse
pub mod Sizes
pub mod Tests
use coffin.Prelude.{
  ℕ, ◌+◌, ◌-◌, ◌*◌, ◌^◌, ◌<◌, Bool, true, false, ◌&&◌, ◌||◌, Option, none, some, List, [], ◌∷◌, ltb,
  leb, ◌==◌, if◌then◌else◌, word,
}
use Prim.Native.Nat.{zero, suc, ◌/◌, ◌%◌, min, max}

-- `Mode`: where the guard page stands.
pub data Mode : Type 0 where
  above below : Mode

-- `OnFault`
pub data OnFault : Type 0 where
  abort_with_signal : OnFault
  exit : ℕ → OnFault

abbrev pub default_max_live : ℕ
default_max_live = 2 ^ 20

abbrev pub default_quarantine : ℕ
default_quarantine = 4096

-- Whether two byte strings are the same.
abbrev pub same_bytes : List ℕ → List ℕ → Bool
same_bytes [] [] = true
same_bytes [] (b ∷ bs) = false
same_bytes (a ∷ as') [] = false
same_bytes (a ∷ as') (b ∷ bs) = a == b && same_bytes as' bs

-- The rest of the string behind a prefix, `slice::strip_prefix`.
abbrev pub strip_prefix : List ℕ → List ℕ → Option (List ℕ)
strip_prefix [] s = some s
strip_prefix (c ∷ cs) [] = none
strip_prefix (c ∷ cs) (b ∷ bs) = if c == b then strip_prefix cs bs else none

-- `u8::is_ascii_digit`
abbrev pub is_digit : ℕ → Bool
is_digit b = leb b'0' b && leb b b'9'

-- The number of leading zeros of a word is 64 less this number.
unfoldable pub bit_length : ℕ → ℕ → ℕ
bit_length zero x = 0
bit_length (suc fuel) x = let rest = bit_length fuel (x / 2) in if x == 0 then 0 else rest + 1

-- `next_pow2`. The shift count of `<<` is taken modulo 64, as the release build does.
unfoldable pub next_pow2 : ℕ → ℕ
next_pow2 x = if leb x 1 then 1 else 2 ^ (bit_length 64 (x - 1) % 64)

-- `saturating_mul(10)` and `saturating_add(d)` at a type whose greatest value is `top`.
abbrev pub saturating_step : ℕ → ℕ → ℕ → ℕ
saturating_step top n d = min (min (n * 10) top + d) top

-- The loop over the bytes of a value: the number so far, and whether a digit was seen.
unfoldable pub parse_digits : ℕ → List ℕ → ℕ → Bool → ℕ × Bool
parse_digits top [] n seen = (n, seen)
parse_digits top (b ∷ bs) n seen =
    let rest = parse_digits top bs (saturating_step top n (b - b'0')) true in
    if is_digit b then rest else (n, seen)

-- `parse_usize_env` on the value of the variable, `none` for one that is not set.
unfoldable pub parse_usize_env : Option (List ℕ) → ℕ → ℕ
parse_usize_env none default = default
parse_usize_env (some bytes) default =
    let (n, seen) = parse_digits (word - 1) bytes 0 false in if seen && ltb 0 n then n else default

-- `max_live_slots`
unfoldable pub max_live_slots : Option (List ℕ) → ℕ
max_live_slots value = next_pow2 (parse_usize_env value default_max_live)

-- `quarantine_cap`
unfoldable pub quarantine_cap : Option (List ℕ) → ℕ
quarantine_cap value = max (parse_usize_env value default_quarantine) 1

-- `page_size`, on what `sysconf` returned: `none` is a negative number, as on a failure.
abbrev pub page_size : Option ℕ → ℕ
page_size none = 4096
page_size (some v) = if v == 0 then 4096 else v

-- `mode`, from COFFIN_PROTECT
unfoldable pub mode : Option (List ℕ) → Mode
mode none = above
mode (some bytes) =
    if same_bytes bytes below_lower || same_bytes bytes below_upper then below else above
  where
    below_lower : List ℕ
    below_lower = b'b' ∷ b'e' ∷ b'l' ∷ b'o' ∷ b'w' ∷ []

    below_upper : List ℕ
    below_upper = b'B' ∷ b'E' ∷ b'L' ∷ b'O' ∷ b'W' ∷ []

-- The test that `symbolize` and `annotate` make of their variables.
unfoldable pub is_on : Option (List ℕ) → Bool
is_on none = false
is_on (some bytes) = same_bytes bytes one || (same_bytes bytes true' || same_bytes bytes yes')
  where
    one : List ℕ
    one = b'1' ∷ []

    true' : List ℕ
    true' = b't' ∷ b'r' ∷ b'u' ∷ b'e' ∷ []

    yes' : List ℕ
    yes' = b'y' ∷ b'e' ∷ b's' ∷ []

-- `symbolize`, from COFFIN_SYMBOLIZE
abbrev pub symbolize : Option (List ℕ) → Bool
symbolize value = is_on value

-- `annotate`, from COFFIN_GITHUB_ANNOTATE
abbrev pub annotate : Option (List ℕ) → Bool
annotate value = is_on value

abbrev pub exit_prefix : List ℕ
exit_prefix = b'e' ∷ b'x' ∷ b'i' ∷ b't' ∷ b':' ∷ []

abbrev pub i32_max : ℕ
i32_max = 2 ^ 31 - 1

-- `on_fault`, from COFFIN_ON_FAULT
unfoldable pub on_fault : Option (List ℕ) → OnFault
on_fault none = abort_with_signal
on_fault (some bytes) = elim (strip_prefix exit_prefix bytes) [
  | none ↦ abort_with_signal
  | some rest ↦
      let (n, seen) = parse_digits i32_max rest 0 false in
      if seen then exit n else abort_with_signal
]
