-- ===== src/Allocator/Runs.antt =====
-- A thread on the small machine, with a table of four slots and a quarantine of one.
use coffin.Prelude.{◌≡◌, refl, arith, ℕ, some, false, inr, inl, List, [], ◌∷◌, sym}
use coffin.Config.{above}
use coffin.Samples.{small, small_geometry}
use coffin.Samples.Machine.{machine, machine-IsSystem, fresh_machine, Machine}
use coffin.Region.{geometry_for, place, round_up, align_down}
use coffin.Region.Tests.{geometry_for-small, small-IsRequest, small_geometry-Fences}
use coffin.Region.Map.{done, map_region, Run, panicked, faulted, check_padding, scan_padding}
use coffin.Registry.{
  Arena, new, insert, find_vacant, home, hash, next, free, find_locked, find_from, quarantine_push,
  seal,
}
use coffin.Allocator.{coffin_alloc, coffin_dealloc, alloc, dealloc, enter, leave, register, settle}
use coffin.Allocator.Process.{
  Event, allocate, release, Process, step, perform, ArePermitted, IsSound, process-IsSound, After,
  start-IsSound,
}
use coffin.Allocator.Guarded.Alloc.{IsFenced, coffin_alloc-IsFenced}
use coffin.Allocator.Guarded.Dealloc.{coffin_dealloc-freed}
use mathlib.Core.Path.{subst}

abbrev pub start : Process machine
start = (some false, new 4 1, fresh_machine)

-- 13 bytes twice, the first of them given back.
abbrev events : List Event
events = allocate small ∷ allocate small ∷ release 0x10ff0 small ∷ []

-- Nothing is asked of the process behind the last call.
last-ArePermitted :
    (r : Run (Process machine))
    → After machine above 12 machine-IsSystem 2 r
        (ArePermitted machine above 12 machine-IsSystem 2 [])
last-ArePermitted (done s) = tt
last-ArePermitted panicked = tt
last-ArePermitted faulted = tt

events-ArePermitted : ArePermitted machine above 12 machine-IsSystem 2 events start
unfolding step alloc enter leave coffin_alloc register map_region geometry_for place round_up
    align_down insert find_vacant home hash next
events-ArePermitted = (
  (2, small-IsRequest),
  (
    (2, small-IsRequest),
    (
      inr (
          inl (
            2,
            small-IsRequest,
            record {
              slot = 0;
              tracked = (omega arith, refl, refl);
              live = refl;
              geometry = small_geometry;
              computed = geometry_for-small;
              laid = (refl, refl, refl);
              sealable = λ u e. refl;
            },
          )),
      last-ArePermitted _,
    ),
  ),
)

process-IsSound_example :
    (s : Process machine) × (perform machine above 12 events start ≡ done s)
    × IsSound machine above 12 machine-IsSystem 2 s
process-IsSound_example =
    process-IsSound machine above 12 machine-IsSystem 2 1 events fresh_machine (omega arith)
      (omega arith) (omega arith) events-ArePermitted

-- One region, freed.
abbrev pub given_back : List Event
given_back = allocate small ∷ release 0x10ff0 small ∷ []

given_back-ArePermitted : ArePermitted machine above 12 machine-IsSystem 2 given_back start
unfolding step alloc enter leave coffin_alloc register map_region geometry_for place round_up
    align_down insert find_vacant home hash next
given_back-ArePermitted = (
  (2, small-IsRequest),
  (
    inr (
        inl (
          2,
          small-IsRequest,
          record {
            slot = 0;
            tracked = (omega arith, refl, refl);
            live = refl;
            geometry = small_geometry;
            computed = geometry_for-small;
            laid = (refl, refl, refl);
            sealable = λ u e. refl;
          },
        )),
    last-ArePermitted _,
  ),
)

-- The process that a run ends with, if it ends.
abbrev pub result_of : Run (Process machine) → Process machine
result_of (done s) = s
result_of _ = start

-- One region, not freed.
abbrev pub live_state : Process machine
live_state = result_of (perform machine above 12 (allocate small ∷ []) start)

pub live_state-IsFenced : IsFenced machine machine-IsSystem 2 live_state.1 live_state.2
live_state-IsFenced =
    let (s, ran, sound) =
      process-IsSound machine above 12 machine-IsSystem 2 1 (allocate small ∷ []) fresh_machine
        (omega arith) (omega arith) (omega arith) ((2, small-IsRequest), last-ArePermitted _) in
    subst (λ r. IsFenced machine machine-IsSystem 2 (result_of r).1 (result_of r).2) (sym ran)
      sound.1

abbrev pub freed_state : Process machine
freed_state = result_of (perform machine above 12 given_back start)

freed_state-IsFenced : IsFenced machine machine-IsSystem 2 freed_state.1 freed_state.2
freed_state-IsFenced =
    let (s, ran, sound) =
      process-IsSound machine above 12 machine-IsSystem 2 1 given_back fresh_machine (omega arith)
        (omega arith) (omega arith) given_back-ArePermitted in
    subst (λ r. IsFenced machine machine-IsSystem 2 (result_of r).1 (result_of r).2) (sym ran)
      sound.1

coffin_alloc-IsFenced_test :
    (ptr : ℕ) × (b : Arena) × (w' : Machine) × (coffin_alloc machine above 4096 small
        (new 4 1)
        fresh_machine
      ≡ done (ptr, b, w'))
    × IsFenced machine machine-IsSystem 2 b w'
coffin_alloc-IsFenced_test =
    coffin_alloc-IsFenced machine machine-IsSystem
      (start-IsSound machine above 12 machine-IsSystem 2 1 fresh_machine (omega arith) (omega arith)
        (omega arith)).1
      small above small_geometry small_geometry-Fences geometry_for-small

-- A second free of a region with padding ends in a fault.
coffin_dealloc-freed_example :
    coffin_dealloc machine above 4096 0x10ff0 small freed_state.1 freed_state.2 ≡ faulted
unfolding step perform alloc dealloc coffin_alloc coffin_dealloc settle enter leave register
    map_region check_padding scan_padding geometry_for place round_up align_down insert find_vacant
    home hash next free find_locked find_from quarantine_push seal
coffin_dealloc-freed_example =
    coffin_dealloc-freed machine machine-IsSystem freed_state-IsFenced small above small_geometry
      small_geometry-Fences geometry_for-small 0x10ff0 0 (omega arith, refl, refl)
      (refl, refl, refl) refl
