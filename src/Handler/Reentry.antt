-- ===== src/Handler/Reentry.antt =====
-- What the handler allocates does not come back to the allocator that it interrupted.
use coffin.Prelude.{ℕ, ◌≡◌, ◌≢◌, refl, true, false, ◌||◌, Option, none, some, ==_false, List}
use coffin.Config.{Mode}
use coffin.Platform.{Platform}
use coffin.Region.{Layout}
use coffin.Region.Map.{done}
use coffin.Registry.{Arena}
use coffin.Allocator.{Guard, enter, force_guard, alloc, dealloc}
use coffin.Handler.{Symbol}
use coffin.Handler.Handle.{Settings, handle, forced}

enter-forced : (guard : Guard) → enter (force_guard guard) ≡ (false, force_guard guard)
unfolding enter force_guard
enter-forced none = refl
enter-forced (some b) = refl

module _ (os : Platform) (mode : Mode) (resolve : ℕ → List Symbol) (cwd : Option (List ℕ))
    (sigsegv sigbus page : ℕ) (set : Settings) (on : (set.symbolize || set.annotate) ≡ true) where
  -- With symbols or annotations on, whatever the guard was when the signal came: after `handle` has
  -- begun, every allocation of the thread is the system allocator's, and so is every release of a
  -- pointer that is not null; the arena, and with it the lock that the thread may hold, is left alone.
  pub handle-reenters :
      (registry : Option Arena) (sig addr : ℕ) (guard : Guard) (l : Layout) (a : Arena)
      (w : os.World) (ptr : ℕ)
      → ptr ≢ 0
      → let held = (handle resolve cwd sigsegv sigbus page set registry sig addr guard).guard in
        (alloc os mode page l held a w
          ≡ done
              ((os.system_alloc l.size l.align w).0, held, a, (os.system_alloc l.size l.align w).1))
        × (dealloc os mode page ptr l held a w
            ≡ done (held, a, os.system_dealloc ptr l.size l.align w))
  unfolding handle forced alloc dealloc
  handle-reenters registry sig addr guard l a w ptr ne =
      rw (on, enter-forced guard, ==_false ptr 0 ne) (refl, refl)
