-- ===== src/Handler/Caught/Tests.antt =====
-- Touches of a guard page and of a freed region on the small machine.
use coffin.Prelude.{ℕ, ◌≡◌, refl, true, some, List, [], ◌∷◌, arith}
use coffin.Config.{above}
use coffin.Samples.{small, small_geometry}
use coffin.Samples.Machine.{Machine, machine, machine-IsSystem, fresh_machine}
use coffin.Platform.Laws.{sealed}
use coffin.Region.{geometry_for, place, round_up, align_down}
use coffin.Region.Tests.{geometry_for-small, small_geometry-Fences}
use coffin.Region.Map.{done, map_region, check_padding}
use coffin.Registry.{Arena, new, insert, find_vacant, home, hash, next, capture_ips, capture}
use coffin.Fault.{overflow, use_after_free}
use coffin.Allocator.{coffin_alloc, coffin_dealloc, alloc, enter, leave, register}
use coffin.Allocator.Process.{step, perform, start-IsSound}
use coffin.Allocator.Runs.{live_state, live_state-IsFenced}
use coffin.Allocator.Guarded.Alloc.{IsFenced}
use coffin.Inspect.{slot_state}
use coffin.Handler.{Symbol, framed, report}
use coffin.Handler.Offset.{IsDistance}
use coffin.Handler.Caught.Guard.{guard_lines, guard-caught}
use coffin.Handler.Caught.Freed.{freed_info, freed_lines, freed-caught}

abbrev unknown : ℕ → List Symbol
unknown ip = []

-- The world behind one allocation.
abbrev mapped_machine : Machine
mapped_machine = (map_region machine 4096 small small_geometry fresh_machine).1

-- The third byte of the guard page.
guard-caught_example :
    (b : Arena) × (d : ℕ) × (coffin_alloc machine above 4096 small (new 4 1) fresh_machine
      ≡ done (0x10ff0, b, mapped_machine))
    × IsFenced machine machine-IsSystem 2 b mapped_machine
    × (machine-IsSystem.access 0x11002 mapped_machine ≡ sealed)
    × IsDistance above small 0x10ff0 0x11002 d
    × (report unknown 11 7 4096 (some b) 11 0x11002 true
        ≡ framed 11 7 11 0x11002 true (some overflow) (
            guard_lines unknown 11 7 11 0x11002 true machine machine-IsSystem above small
              small_geometry 0x10000 d
              (0x1111 ∷ 0x2222 ∷ [])))
guard-caught_example =
    guard-caught unknown 11 7 11 0x11002 true machine machine-IsSystem
      (start-IsSound machine above 12 machine-IsSystem 2 1 fresh_machine (omega arith) (omega arith)
        (omega arith)).1
      small above small_geometry small_geometry-Fences geometry_for-small 0x10000 refl refl
      (omega arith) (omega arith, (omega arith, tt)) (omega arith) (omega arith)

-- The fifth byte of a freed buffer.
freed-caught_example :
    (b : Arena) × (w' u : Machine) × (coffin_dealloc machine above 4096 0x10ff0 small live_state.1
        live_state.2
      ≡ done (b, w'))
    × (check_padding machine 4096 0x10ff0 small above live_state.2 ≡ done u)
    × IsFenced machine machine-IsSystem 2 b w'
    × (slot_state b 0x10ff0 ≡ some "freed")
    × (machine-IsSystem.access 0x10ff4 w' ≡ sealed)
    × (report unknown 11 7 4096 (some b) 11 0x10ff4 true
        ≡ framed 11 7 11 0x10ff4 true (some use_after_free) (
            freed_lines unknown 11 7 11 0x10ff4 true machine machine-IsSystem
              (freed_info (live_state.1.slots 0) 0)
              (0x1111 ∷ 0x2222 ∷ [])
              (0x1111 ∷ 0x2222 ∷ [])))
unfolding step perform alloc coffin_alloc enter leave register map_region geometry_for place
    round_up align_down insert find_vacant home hash next capture_ips capture
freed-caught_example =
    freed-caught unknown 11 7 11 0x10ff4 true machine machine-IsSystem live_state-IsFenced small
      above small_geometry small_geometry-Fences geometry_for-small 0x10ff0 0
      (omega arith, refl, refl) (refl, refl, refl) refl (λ u e. refl) (0x1111 ∷ 0x2222 ∷ []) refl
      (omega arith, (omega arith, tt)) (λ u. (omega arith, (omega arith, tt))) refl
