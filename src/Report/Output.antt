-- ===== src/Report/Output.antt =====
-- src/report.rs, the loop around `write`. The system call is an argument: of a descriptor and bytes,
-- with `none` for a result of 0 or less, and the number of bytes taken otherwise.
pub mod Written
use coffin.Prelude.{
  ℕ, zero, suc, ◌+◌, Option, none, some, List, [], ◌∷◌, length, drop, ltb, if◌then◌else◌,
}

-- The descriptors, 1 and 2 on every POSIX system.
abbrev pub stdout_fileno : ℕ
stdout_fileno = 1

abbrev pub stderr_fileno : ℕ
stderr_fileno = 2

pub record FdWriter : Type 0 where
  pub fd : ℕ

module _ {World : Type 0} (write : ℕ → List ℕ → World → Option ℕ × World) where
  -- The loop over one slice, from `off` on, with the rounds left; `none` if these run out.
  unfoldable pub write_part : ℕ → ℕ → List ℕ → ℕ → World → Option World
  write_part zero fd p off w = none
  write_part (suc n) fd p off w =
      if ltb off (length p)
      then (let (taken, w') = write fd (drop off p) w in
          elim taken [ none ↦ some w' | some m ↦ write_part n fd p (off + m) w' ])
      else some w

  -- A slice is written in at most as many calls as it has bytes.
  unfoldable pub raw_write_fd : ℕ → List (List ℕ) → World → Option World
  raw_write_fd fd [] w = some w
  raw_write_fd fd (p ∷ ps) w = elim (write_part (suc (length p)) fd p 0 w) [
    | none ↦ none
    | some w' ↦ raw_write_fd fd ps w'
  ]

  -- `FdWriter`, and its `write_str`, which never fails.
  abbrev fd_writer_write_str : FdWriter → List ℕ → World → Option World
  fd_writer_write_str self s w = raw_write_fd self.fd (s ∷ []) w

  abbrev pub raw_write : List (List ℕ) → World → Option World
  raw_write parts w = raw_write_fd stderr_fileno parts w

  abbrev pub write_str : List ℕ → World → Option World
  write_str s w = raw_write (s ∷ []) w
