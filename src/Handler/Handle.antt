-- ===== src/Handler/Handle.antt =====
-- src/handler.rs, `handle`: the report on stderr, the annotations on stdout, the reentrancy guard
-- of the thread, and the end.
use coffin.Prelude.{ℕ, Bool, ◌||◌, Option, List, [], if◌then◌else◌}
use coffin.Config.{OnFault}
use coffin.Registry.{Arena}
use coffin.Allocator.{Guard, force_guard}
use coffin.Handler.{Piece, Symbol, Ending, ending, look_up, report}
use coffin.Handler.Annotate.{Annotation, emit_annotations}

-- The settings that the handler reads.
pub record Settings : Type 0 where
  pub symbolize : Bool
  pub annotate : Bool
  pub on_fault : OnFault

pub record Handled : Type 0 where
  pub pieces : List Piece
  pub annotations : List Annotation
  pub guard : Guard
  pub ends : Ending

-- The guard is forced before the report if the settings call for code that allocates.
unfoldable pub forced : Settings → Guard → Guard
forced set guard = if set.symbolize || set.annotate then force_guard guard else guard

-- `resolve` is the `backtrace` crate's, `cwd` the working directory if it is known, `sigsegv` and
-- `sigbus` are the numbers of the signals. The report and the annotations are of one classification.
module _ (resolve : ℕ → List Symbol) (cwd : Option (List ℕ)) (sigsegv sigbus page : ℕ) where
  unfoldable pub handle : Settings → Option Arena → ℕ → ℕ → Guard → Handled
  unfolding forced
  handle set registry sig addr guard = record {
    pieces = report resolve sigsegv sigbus page registry sig addr set.symbolize;
    annotations =
        if set.annotate then emit_annotations resolve cwd (look_up page registry addr) addr else [];
    guard = forced set guard;
    ends = ending set.on_fault;
  }
