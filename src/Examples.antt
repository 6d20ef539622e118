-- ===== src/Examples.antt =====
-- src/examples: `overflow.rs`, `uaf.rs`, `wild.rs` and, in the module Inspect, `inspect.rs`,
-- programs of one thread under the allocator. What they print is left out, up to the states that
-- they ask for: the messages of the first three go to stderr, which is not buffered, and allocate
-- nothing.
pub mod Memory
pub mod Once
pub mod Killed
pub mod Inspect
pub mod Tests
use Prim.Native.String.{String}
use coffin.Prelude.{
  ℕ, ◌^◌, Bool, Option, none, some, List, [], ◌∷◌, ◌++◌, ◌==◌, if◌then◌else◌, wrapping_add,
}
use coffin.Config.{Mode}
use coffin.Platform.{Platform}
use coffin.Region.{Layout}
use coffin.Region.Map.{Run, done, panicked, faulted}
use coffin.Registry.{Arena}
use coffin.Allocator.{Guard, alloc, dealloc}
use coffin.Handler.{Symbol}
use coffin.Handler.Handle.{Settings, Handled, handle}
use coffin.Inspect.{slot_state}
use coffin.Startup.{Statics, Outcome, created, too_large, aborted, arm}

-- What a program runs on: the system and its signals, the settings, and the environment.
pub record Setup : Type 1 where
  pub os : Platform
  pub sigaltstack : ℕ → ℕ → os.World → os.World
  pub sigaction : ℕ → os.World → os.World
  -- A byte stored by the program itself; `none` is a fault, of which `signal` is the signal.
  pub store : ℕ → ℕ → os.World → Option os.World
  pub signal : ℕ
  pub sigsegv : ℕ
  pub sigbus : ℕ
  pub sigstksz : ℕ
  pub page_exp : ℕ
  pub mode : Mode
  pub settings : Settings
  pub max_live : Option (List ℕ)
  pub quarantine : Option (List ℕ)
  pub cwd : Option (List ℕ)
  pub resolve : ℕ → List Symbol

-- The layout of uaf.rs.
abbrev pub uaf_layout : Layout
uaf_layout = record { size = 64; align = 8 }

module _ (s : Setup) where
  open s use {
    os, sigaltstack, sigaction, store, signal, sigsegv, sigbus, sigstksz, page_exp, mode, settings,
    max_live, quarantine, cwd, resolve,
  }
  open os use {World, write_bytes}

  abbrev pub page_size : ℕ
  page_size = 2 ^ page_exp

  -- The reentrancy guard of the thread, the arena, the states printed so far, and the rest.
  pub record Task : Type 0 where
    pub guard : Guard
    pub arena : Arena
    pub printed : List (Option String)
    pub world : World

  -- How a run ends: it goes on with a value; a fault of its own was handled; it called `exit`; or it
  -- stopped in a panic, an abort or a fault of the allocator itself.
  pub data Ran (A : Type 0) : Type 0 where
    returned : A → Task → Ran A
    killed : Handled → Task → Ran A
    quit : ℕ → Task → Ran A
    stopped : Ran A

  abbrev pub Program : Type 0 → Type 0
  Program A = Task → Ran A

  abbrev pub and_then : {A B : Type 0} → Ran A → (A → Program B) → Ran B
  and_then (returned x t) f = f x t
  and_then (killed h t) f = killed h t
  and_then (quit code t) f = quit code t
  and_then stopped f = stopped

  infixl 5 ◌>>=◌ ◌>>◌
  abbrev pub ◌>>=◌ : {A B : Type 0} → Program A → (A → Program B) → Program B
  p >>= f = λ t. and_then (p t) f

  abbrev pub ◌>>◌ : {B : Type 0} → Program Unit → Program B → Program B
  p >> q = p >>= λ _. q

  abbrev after_alloc : Task → Run (ℕ × Guard × Arena × World) → Ran ℕ
  after_alloc t (done (ptr, guard, a, w)) =
      returned ptr (record t { guard = guard; arena = a; world = w })
  after_alloc t panicked = stopped
  after_alloc t faulted = stopped

  -- `std::alloc::alloc`
  unfoldable pub allocate : Layout → Program ℕ
  allocate l t = after_alloc t (alloc os mode page_size l t.guard t.arena t.world)

  abbrev after_dealloc : Task → Run (Guard × Arena × World) → Ran Unit
  after_dealloc t (done (guard, a, w)) =
      returned tt (record t { guard = guard; arena = a; world = w })
  after_dealloc t panicked = stopped
  after_dealloc t faulted = stopped

  -- `std::alloc::dealloc`
  unfoldable pub release : ℕ → Layout → Program Unit
  release ptr l t = after_dealloc t (dealloc os mode page_size ptr l t.guard t.arena t.world)

  -- `ptr::write_volatile` of a byte. A fault is the handler's, which reads the arena as it is.
  unfoldable pub write_volatile : ℕ → ℕ → Program Unit
  write_volatile addr byte t = elim (store addr byte t.world) [
    | some w ↦ returned tt (record t { world = w })
    | none ↦
        killed
          (handle resolve cwd sigsegv sigbus page_size settings (some t.arena) signal addr t.guard)
          t
  ]

  -- `assert!(!p.is_null())`, and the abort of a vector that gets no memory.
  abbrev pub not_null : ℕ → Program ℕ
  not_null ptr t = if ptr == 0 then stopped else returned ptr t

  -- `println!("{:?}", coffin::slot_state(p))`
  unfoldable pub print_state : ℕ → Program Unit
  print_state ptr t =
      returned tt (record t { printed = t.printed ++ (slot_state t.arena ptr ∷ []) })

  -- `vec![0u8; n]`: `alloc_zeroed`, which is `alloc` and `write_bytes`.
  unfoldable pub zeroed_vec : ℕ → Program ℕ
  unfolding allocate
  zeroed_vec n = do
    ptr ← allocate (record { size = n; align = 1 })
    ptr ← not_null ptr
    λ t. returned ptr (record t { world = write_bytes ptr 0 n t.world })

  -- `coffin::arm`, in a process with the given statics.
  abbrev pub armed : {A : Type 0} → Outcome World → Guard → Program A → Ran A
  armed (created a st w) guard p = p (record { guard = guard; arena = a; printed = []; world = w })
  armed too_large guard p = stopped
  armed (aborted w) guard p = stopped

  abbrev pub under_arm : {A : Type 0} → Program A → Statics → Guard → World → Ran A
  under_arm p st guard w =
      armed (arm os sigaltstack sigaction sigsegv sigbus sigstksz max_live quarantine st w) guard p

  unfoldable pub overflow_body : Program Unit
  unfolding zeroed_vec write_volatile release
  overflow_body = do
    ptr ← zeroed_vec 64
    write_volatile (wrapping_add ptr 64) 0xFF
    release ptr (record { size = 64; align = 1 })

  -- `main` of overflow.rs. The vector is dropped at its end.
  abbrev pub overflow_main : Statics → Guard → World → Ran Unit
  overflow_main = under_arm overflow_body

  unfoldable pub uaf_body : Program Unit
  unfolding allocate write_volatile print_state release
  uaf_body = do
    ptr ← allocate uaf_layout
    ptr ← not_null ptr
    write_volatile ptr 1
    print_state ptr
    release ptr uaf_layout
    print_state ptr
    write_volatile ptr 2

  -- `main` of uaf.rs.
  abbrev pub uaf_main : Statics → Guard → World → Ran Unit
  uaf_main = under_arm uaf_body

  -- `main` of wild.rs.
  abbrev pub wild_main : Statics → Guard → World → Ran Unit
  wild_main = under_arm (write_volatile 0xDEAD_0000 0x42)
