-- ===== src/Examples/Tests.antt =====
-- The example programs on the small machine, past its first allocation.
use coffin.Prelude.{
  ℕ, suc, ◌+◌, ◌*◌, ◌^◌, ◌<◌, ◌≡◌, refl, sym, ◌∙◌, false, true, none, some, Option, List, [], ◌∷◌,
  arith, word, lt→ltb,
}
use coffin.Config.{above, abort_with_signal, quarantine_cap, parse_usize_env}
use coffin.Samples.Machine.{Machine, machine, machine-IsSystem, machine_access, fresh_machine}
use coffin.Platform.Laws.{Access, foreign, writable}
use coffin.Region.{Geometry, geometry_for, place, round_up, align_down}
use coffin.Region.Map.{map_region}
use coffin.Registry.{new}
use coffin.Fault.{overflow, use_after_free, wild}
use coffin.Allocator.Process.{start-IsSound}
use coffin.Allocator.Guarded.Alloc.{IsFenced}
use coffin.Allocator.Detect.{report_of}
use coffin.Handler.{Symbol, put, framed}
use coffin.Handler.Caught.Guard.{guard_lines}
use coffin.Handler.Caught.Freed.{freed_lines}
use coffin.Startup.{Statics}
use coffin.Examples.{Setup, Task, returned, uaf_layout, overflow_main, uaf_main, wild_main}
use coffin.Examples.Memory.{IsKernel, task}
use coffin.Examples.Inspect.{checked_layout, round_layout, inspect_main}
use coffin.Examples.Inspect.Ample.{IsAmple}
use coffin.Examples.Inspect.Outcome.{inspect_main-outcome}
use coffin.Examples.Killed.{IsStarted, IsKilled}
use coffin.Examples.Killed.Wild.{wild-IsKilled}
use coffin.Examples.Killed.Overflow.{vec_layout, overflow-IsKilled}
use coffin.Examples.Killed.Uaf.{uaf-IsKilled}

abbrev unknown : ℕ → List Symbol
unknown ip = []

abbrev stored : Access → Machine → Option Machine
stored writable m = some m
stored foreign m = some m
stored _ m = none

abbrev desk : Setup
desk = record {
  os = machine;
  sigaltstack = λ addr size m. m;
  sigaction = λ signal m. m;
  store = λ addr byte m. stored (m.access addr) m;
  signal = 11;
  sigsegv = 11;
  sigbus = 7;
  sigstksz = 8192;
  page_exp = 12;
  mode = above;
  settings = record { symbolize = false; annotate = false; on_fault = abort_with_signal };
  max_live = none;
  quarantine = none;
  cwd = none;
  resolve = unknown;
}

desk-IsKernel : IsKernel desk
desk-IsKernel = record {
  sys = machine-IsSystem;
  mmap_nonnull = λ n base m e. ground (arith, m.positive);
  sigaction_access = λ n m addr. refl;
  store_sealed = λ addr byte m e. rw (machine_access addr m ∙ e) refl;
  store_absent = λ addr byte m e. rw (machine_access addr m ∙ e) refl;
  store_writable = λ addr byte m e. (m, rw (machine_access addr m ∙ e) refl, λ x. refl);
  frames = λ m. (omega arith, (omega arith, tt));
}

abbrev statics : Statics
statics = record { alt_stack = true; arena = some (new 4 1) }

statics-IsStarted : IsStarted statics (new 4 1)
statics-IsStarted = record { alt_stack = refl; arena = refl }

fresh-IsFenced : IsFenced machine machine-IsSystem 2 (new 4 1) fresh_machine
fresh-IsFenced =
    (start-IsSound machine above 12 machine-IsSystem 2 1 fresh_machine (omega arith) (omega arith)
      (omega arith)).1

wild-IsKilled_test : IsKilled desk (wild_main desk statics (some false) fresh_machine) [] (
    framed 11 7 11 0xDEAD_0000 false
      (some wild)
      (put "  (address is not inside any live or quarantined allocation)\n" ∷ []))
unfolding desk-IsKernel
wild-IsKilled_test =
    wild-IsKilled desk desk-IsKernel fresh-IsFenced statics statics-IsStarted
      (sym (machine_access 0xDEAD_0000 fresh_machine))

abbrev vec_geometry : Geometry
vec_geometry = record { map_len = 8192; guard_off = 4096; user_off = 4032; pad = 0 }

geometry_for-vec : geometry_for vec_layout above 4096 ≡ some vec_geometry
unfolding geometry_for place round_up align_down
geometry_for-vec = refl

overflow-IsKilled_example :
    IsKilled desk (overflow_main desk statics (some false) fresh_machine) [] (
      framed 11 7 11 0x11000 false (some overflow) (
        guard_lines unknown 11 7 11 0x11000 false machine machine-IsSystem above vec_layout
          vec_geometry 0x10000 0
          (0x1111 ∷ 0x2222 ∷ [])))
unfolding desk-IsKernel
overflow-IsKilled_example =
    overflow-IsKilled desk desk-IsKernel vec_geometry geometry_for-vec refl (omega arith)
      fresh-IsFenced statics statics-IsStarted 0x10000 refl refl (omega arith)

geometry_for-uaf : geometry_for uaf_layout above 4096 ≡ some vec_geometry
unfolding geometry_for place round_up align_down
geometry_for-uaf = refl

uaf-IsKilled_example :
    (u : Machine) × (desk.store 0x10fc0 1
        (map_region machine 4096 uaf_layout vec_geometry fresh_machine).1
      ≡ some u)
    × IsKilled desk
        (uaf_main desk statics (some false) fresh_machine)
        (some "ready" ∷ some "freed" ∷ [])
        (framed 11 7 11 0x10fc0 false (some use_after_free) (
          freed_lines unknown 11 7 11 0x10fc0 false machine machine-IsSystem
            (report_of use_after_free 0 uaf_layout vec_geometry 0x10000)
            (0x1111 ∷ 0x2222 ∷ [])
            (0x1111 ∷ 0x2222 ∷ [])))
unfolding desk-IsKernel
uaf-IsKilled_example =
    uaf-IsKilled desk desk-IsKernel vec_geometry geometry_for-uaf (omega arith) (omega arith)
      fresh-IsFenced statics statics-IsStarted 0x10000 refl refl (omega arith) (λ u e. refl)

-- A mapping of the machine takes 4096 addresses for each of its bytes.
abbrev Plenty : ℕ → Machine → Type 0
Plenty n m = m.top + n * 34_078_720 < word

desk_serves :
    (n len : ℕ) (m : Machine)
    → 0 < len
    → len < 128 + 2 * 2 ^ 12
    → Plenty (suc n) m
    → (base : ℕ) × ((machine.mmap len m).0 ≡ some base) × Plenty n (machine.mmap len m).1
desk_serves n len m pos small p =
    let e = lt→ltb (m.top + len * 4096) word (omega (arith, small, p)) in
    (m.top, rw e refl, rw e (omega (arith, small, p)))

desk-IsAmple : IsAmple desk machine-IsSystem Plenty
desk-IsAmple = record {
  serves = desk_serves;
  seals = λ n base len m p whole pages ours. refl;
  mprotect = λ n base len m p. p;
  munmap = λ n base len m p. p;
  write_bytes = λ n ptr byte len m p. p;
}

abbrev checked_geometry : Geometry
checked_geometry = record { map_len = 8192; guard_off = 4096; user_off = 3968; pad = 0 }

abbrev round_geometry : Geometry
round_geometry = record { map_len = 8192; guard_off = 4096; user_off = 4064; pad = 0 }

geometry_for-checked : geometry_for checked_layout above 4096 ≡ some checked_geometry
unfolding geometry_for place round_up align_down
geometry_for-checked = refl

geometry_for-round : geometry_for round_layout above 4096 ≡ some round_geometry
unfolding geometry_for place round_up align_down
geometry_for-round = refl

wide-IsFenced : IsFenced machine machine-IsSystem 13 (new (2 ^ 13) 4096) fresh_machine
wide-IsFenced =
    (start-IsSound machine above 12 machine-IsSystem 13 4096 fresh_machine (omega arith)
      (omega arith) (omega arith)).1

default_places : 4096 ≡ quarantine_cap none
unfolding quarantine_cap parse_usize_env
default_places = refl

inspect_main-outcome_example :
    (t : Task desk) × (t.printed ≡ some "ready" ∷ some "freed" ∷ [])
    × (inspect_main desk false (task desk (new (2 ^ 13) 4096) [] fresh_machine) ≡ returned tt t)
unfolding desk-IsKernel
inspect_main-outcome_example =
    inspect_main-outcome desk false desk-IsKernel Plenty desk-IsAmple checked_geometry
      round_geometry geometry_for-checked geometry_for-round (omega arith) (omega arith)
      wide-IsFenced default_places (omega arith) (omega arith) (omega arith)
