-- ===== src/Examples/Killed.antt =====
-- How the example programs end.
pub mod Wild
pub mod Overflow
pub mod Uaf
use Prim.Native.String.{String}
use coffin.Prelude.{ℕ, ◌≡◌, refl, true, none, some, List, Option}
use coffin.Registry.{Arena}
use coffin.Startup.{Statics}
use coffin.Handler.{Piece, report, Ending, ending}
use coffin.Handler.Handle.{Handled, handle}
use coffin.Examples.{Setup, Task, Ran, killed, page_size, Program, and_then, write_volatile}
use coffin.Examples.Memory.{write_volatile-none}

-- A process past its first allocation, which has the arena.
pub record IsStarted (st : Statics) (a : Arena) : Type 0 where
  pub alt_stack : st.alt_stack ≡ true
  pub arena : st.arena ≡ some a

module _ (s : Setup) where
  open s use {store, settings, sigsegv, sigbus, signal, resolve, cwd}

  -- The run is ended by the handler, in the way that the settings choose, with a report, and it has
  -- printed some states.
  abbrev pub IsKilled : {A : Type 0} → Ran s A → List (Option String) → List Piece → Type 0
  IsKilled run printed pieces =
      (h : Handled) × (t : Task s) × (run ≡ killed h t)
      × (t.printed ≡ printed)
      × (h.pieces ≡ pieces)
      × (h.ends ≡ ending settings.on_fault)

  -- A store that faults, at an address on which the report is known.
  pub write_volatile-IsKilled :
      (addr byte : ℕ) (t : Task s) (pieces : List Piece)
      → store addr byte t.world ≡ none
      → report resolve sigsegv sigbus (page_size s) (some t.arena) signal addr settings.symbolize
        ≡ pieces
      → IsKilled (write_volatile s addr byte t) t.printed pieces
  unfolding handle
  write_volatile-IsKilled addr byte t pieces faults e = (
    handle resolve cwd sigsegv sigbus (page_size s) settings (some t.arena) signal addr t.guard,
    t,
    write_volatile-none s addr byte t faults,
    refl,
    e,
    refl,
  )

  -- What would come behind a fault does not.
  pub and_then-IsKilled :
      {A B : Type 0} (run : Ran s A) (printed : List (Option String)) (pieces : List Piece)
      (f : A → Program s B)
      → IsKilled run printed pieces
      → IsKilled (and_then s run f) printed pieces
  and_then-IsKilled run printed pieces f (h, t, e, said, told, ends) =
      (h, t, rw e refl, said, told, ends)
