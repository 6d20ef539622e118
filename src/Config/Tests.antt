-- ===== src/Config/Tests.antt =====
-- Values of the environment's variables.
use coffin.Prelude.{ℕ, ◌-◌, ◌^◌, ◌≤◌, ◌<◌, ◌*◌, ◌≡◌, some, List, [], ◌∷◌, arith, word}
use Prim.Native.Nat.{max}
use coffin.Config.{next_pow2, default_max_live, max_live_slots, parse_usize_env, exit, on_fault}
use coffin.Config.Parse.{parse_usize_env_lem, on_fault_lem}
use coffin.Config.Sizes.{next_pow2_lem, next_pow2_wraps, max_live_slots_lem}

-- `300 slots`
abbrev three_hundred : List ℕ
three_hundred = b'3' ∷ b'0' ∷ b'0' ∷ b' ' ∷ b's' ∷ b'l' ∷ b'o' ∷ b't' ∷ b's' ∷ []

-- `exit:42`
abbrev exit_42 : List ℕ
exit_42 = b'e' ∷ b'x' ∷ b'i' ∷ b't' ∷ b':' ∷ b'4' ∷ b'2' ∷ []

parse_usize_env_lem_example : parse_usize_env (some three_hundred) 7 ≡ 300
parse_usize_env_lem_example = parse_usize_env_lem three_hundred 7

on_fault_lem_test : on_fault (some exit_42) ≡ exit 42
on_fault_lem_test = on_fault_lem exit_42

next_pow2_lem_test :
    (k : ℕ) × (next_pow2 300 ≡ 2 ^ k) × (k ≤ 63) × (300 ≤ 2 ^ k) × (2 ^ k < max 2 (2 * 300))
next_pow2_lem_test = next_pow2_lem 300 (omega arith)

-- What `COFFIN_MAX_LIVE=99999999999999999999` comes to.
next_pow2_wraps_example : next_pow2 (word - 1) ≡ 1
next_pow2_wraps_example = next_pow2_wraps (word - 1) (omega arith) (omega arith)

max_live_slots_lem_test :
    (k : ℕ) × (max_live_slots (some three_hundred) ≡ 2 ^ k)
    × (k ≤ 63)
    × (parse_usize_env (some three_hundred) default_max_live ≤ 2 ^ k)
max_live_slots_lem_test =
    max_live_slots_lem (some three_hundred)
      (rw (parse_usize_env_lem three_hundred default_max_live) (omega arith))
