-- ===== src/Examples/Memory.antt =====
-- The steps of the example programs, one by one.
use coffin.Prelude.{
  ℕ, ◌+◌, ==_false, arith, ◌^◌, ◌<◌, ◌≡◌, refl, ◌∙◌, true, false, none, some, List, [], Option,
  ◌==◌,
}
use Prim.Native.String.{String}
use coffin.Platform.Laws.{absent, writable, sealed, IsSystem}
use coffin.Region.{Layout}
use coffin.Region.Map.{done}
use coffin.Registry.{Arena}
use coffin.Allocator.{alloc, dealloc, enter, leave, coffin_alloc, coffin_dealloc}
use coffin.Allocator.Guarded.{world-IsGuarded}
use coffin.Allocator.Guarded.Alloc.{IsFenced}
use coffin.Handler.Handle.{handle}
use coffin.Handler.Stack.{AllPositive}
use coffin.Startup.{Statics}
use coffin.Startup.Once.{arm-settled}
use coffin.Examples.{
  Setup, Task, returned, killed, Program, page_size, allocate, release, write_volatile, under_arm,
}

-- What the programs rely on: the laws of the system, a mapping that does not stand at the null
-- address, `sigaction` that touches no mapping, stores that fault where memory is sealed or absent,
-- succeed where it is writable, and change no access, and stacks without the address 0.
pub record IsKernel (s : Setup) : Type 0 where
  pub sys : IsSystem s.os (2 ^ s.page_exp)
  pub mmap_nonnull : (n base : ℕ) (w : s.os.World) → (s.os.mmap n w).0 ≡ some base → 0 < base
  pub sigaction_access :
      (n : ℕ) (w : s.os.World) (addr : ℕ) → sys.access addr (s.sigaction n w) ≡ sys.access addr w
  pub store_sealed :
      (addr byte : ℕ) (w : s.os.World) → sys.access addr w ≡ sealed → s.store addr byte w ≡ none
  pub store_absent :
      (addr byte : ℕ) (w : s.os.World) → sys.access addr w ≡ absent → s.store addr byte w ≡ none
  pub store_writable :
      (addr byte : ℕ) (w : s.os.World)
      → sys.access addr w ≡ writable
      → (w' : s.os.World) × (s.store addr byte w ≡ some w')
        × ((x : ℕ) → sys.access x w' ≡ sys.access x w)
  pub frames : (w : s.os.World) → AllPositive (s.os.trace w)

-- No pointer into a mapping is null.
pub pos_nonzero : (base n : ℕ) → 0 < base → (base + n == 0) ≡ false
pos_nonzero base n h = ==_false (base + n) 0 (λ e. absurd (omega arith))

module _ (s : Setup) where
  open s use {os, sigaction, store, signal, sigsegv, sigbus, mode, settings, cwd, resolve}

  -- A thread outside the allocator.
  abbrev pub task : Arena → List (Option String) → os.World → Task s
  task a printed w = record { guard = some false; arena = a; printed = printed; world = w }

  -- The world once `arm` has asserted the two dispositions again.
  abbrev pub armed_world : os.World → os.World
  armed_world w = sigaction sigbus (sigaction sigsegv w)

  -- In a process past its first allocation, `arm` only asserts the dispositions.
  pub under_arm-kept :
      {A : Type 0} (p : Program s A) (st : Statics) (w : os.World) (a : Arena)
      → st.alt_stack ≡ true
      → st.arena ≡ some a
      → under_arm s p st (some false) w ≡ p (task a [] (armed_world w))
  under_arm-kept p st w a alt kept =
      rw
        (arm-settled os s.sigaltstack sigaction sigsegv sigbus s.sigstksz s.max_live s.quarantine st
          w a alt kept)
        refl

  pub allocate-done :
      (l : Layout) (a b : Arena) (w w' : os.World) (ps : List (Option String)) (ptr : ℕ)
      → coffin_alloc os mode (page_size s) l a w ≡ done (ptr, b, w')
      → allocate s l (task a ps w) ≡ returned ptr (task b ps w')
  unfolding allocate alloc enter leave
  allocate-done l a b w w' ps ptr e = rw (e, allocate) refl

  pub release-done :
      (ptr : ℕ) (l : Layout) (a b : Arena) (w w' : os.World) (ps : List (Option String))
      → (ptr == 0) ≡ false
      → coffin_dealloc os mode (page_size s) ptr l a w ≡ done (b, w')
      → release s ptr l (task a ps w) ≡ returned tt (task b ps w')
  unfolding release dealloc enter leave
  release-done ptr l a b w w' ps z e = rw (z, release) (rw (e, release) refl)

  pub write_volatile-some :
      (addr byte : ℕ) (t : Task s) (w : os.World)
      → store addr byte t.world ≡ some w
      → write_volatile s addr byte t ≡ returned tt (record t { world = w })
  unfolding write_volatile
  write_volatile-some addr byte t w e = rw (e, write_volatile) refl

  pub write_volatile-none :
      (addr byte : ℕ) (t : Task s)
      → store addr byte t.world ≡ none
      → write_volatile s addr byte t
        ≡ killed
            (handle resolve cwd sigsegv sigbus
              (page_size s)
              settings
              (some t.arena)
              signal
              addr
              t.guard)
            t
  unfolding write_volatile
  write_volatile-none addr byte t e = rw (e, write_volatile) refl

  pub armed_world-access :
      (kernel : IsKernel s) (w : os.World) (addr : ℕ)
      → kernel.sys.access addr (armed_world w) ≡ kernel.sys.access addr w
  armed_world-access kernel w addr =
      kernel.sigaction_access sigbus (sigaction sigsegv w) addr
      ∙ kernel.sigaction_access sigsegv w addr

  module _ (kernel : IsKernel s) {k : ℕ} {a : Arena} {w : os.World}
      (v : IsFenced os kernel.sys k a w) where
    open kernel use {sys}

    -- A change of the world that keeps the access to every address.
    pub same-IsFenced :
        (w' : os.World) → ((x : ℕ) → sys.access x w' ≡ sys.access x w) → IsFenced os sys k a w'
    same-IsFenced w' same = record {
      valid = v.valid;
      guarded = world-IsGuarded os sys v.guarded w' (λ x o. same x);
    }

    pub armed_world-IsFenced : IsFenced os sys k a (armed_world w)
    armed_world-IsFenced = same-IsFenced (armed_world w) (armed_world-access kernel w)
