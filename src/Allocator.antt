-- ===== src/Allocator.antt =====
-- src/lib.rs: the global allocator. The reentrancy guard is a thread's own; the arena is shared.
pub mod Guarded
pub mod Fenced
pub mod Detect
pub mod Process
pub mod Threads
pub mod Runs
pub mod Tests
use coffin.Prelude.{
  ℕ, ◌+◌, Bool, true, false, Option, none, some, if◌then◌else◌, ◌==◌, wrapping_add,
}
use Prim.Native.Nat.{max}
use coffin.Config.{Mode}
use coffin.Platform.{Platform}
use coffin.Region.{Layout, Geometry, geometry_for}
use coffin.Region.Map.{
  Run, done, panicked, faulted, ◌>>=◌, region_geometry, map_region, check_padding,
}
use coffin.Registry.{Arena, Entry, insert, free}

-- `IN_COFFIN` of the thread: `none` once the thread-local is gone.
abbrev pub Guard : Type 0
Guard = Option Bool

unfoldable pub enter : Guard → Bool × Guard
enter none = (false, none)
enter (some true) = (false, some true)
enter (some false) = (true, some true)

unfoldable pub leave : Guard → Guard
leave none = none
leave (some b) = some false

unfoldable pub force_guard : Guard → Guard
force_guard none = none
force_guard (some b) = some true

-- The arguments of `insert` for a region at `base`.
abbrev pub entry_of : ℕ → ℕ → Layout → Geometry → Entry
entry_of base user l g = record {
  base = base;
  total_len = g.map_len;
  user_ptr = user;
  size = max l.size 1;
  align = l.align;
  guard_addr = wrapping_add base g.guard_off;
}

module _ (os : Platform) (mode : Mode) (page : ℕ) where
  open os use {World, munmap, system_alloc, system_dealloc, write_stderr}

  unfoldable pub warn_full_once : Arena → World → Arena × World
  warn_full_once a w = if a.full_warned then (a, w) else (
    record a { full_warned = true },
    write_stderr
        "coffin: registry full (COFFIN_MAX_LIVE reached) — falling back to the system allocator (these allocations are NOT fenced)\n"
        w,
  )

  -- `coffin_alloc` from the result of `map_region` on.
  unfoldable pub register :
      Layout → Geometry → Option (ℕ × ℕ) → Arena → World → Run (ℕ × Arena × World)
  register l g none a w = done (0, a, w)
  register l g (some (base, user)) a w =
      let (inserted, b) = insert os (entry_of base user l g) a w in
      if inserted
      then done (user, b, w)
      else (let (c, w₁) = warn_full_once b (munmap base g.map_len w) in
          let (p, w₂) = system_alloc l.size l.align w₁ in done (p, c, w₂))

  -- The pointer, 0 if `mmap` failed.
  unfoldable pub coffin_alloc : Layout → Arena → World → Run (ℕ × Arena × World)
  unfolding register
  coffin_alloc l a w = do
    g ← region_geometry l mode page
    let mapped = map_region os page l g w
    register l g mapped.0 a mapped.1

  -- What `coffin_dealloc` does on the result of `free`.
  unfoldable pub settle : ℕ → Layout → Option Bool × Arena × World → Run (Arena × World)
  settle ptr l (some true, a, w) = done (a, w)
  settle ptr l (some false, a, w) = done (a, write_stderr "coffin: double free detected\n" w)
  settle ptr l (none, a, w) = done (a, system_dealloc ptr l.size l.align w)

  unfoldable pub coffin_dealloc : ℕ → Layout → Arena → World → Run (Arena × World)
  coffin_dealloc ptr l a w = do
    w₁ ← check_padding os page ptr l mode w
    g ← region_geometry l mode page
    settle ptr l (free os ptr g.map_len a w₁)

  -- `GlobalAlloc::alloc`
  unfoldable pub alloc : Layout → Guard → Arena → World → Run (ℕ × Guard × Arena × World)
  alloc l guard a w =
      let (entered, inside) = enter guard in
      if entered
      then coffin_alloc l a w >>= (λ r. done (r.0, leave inside, r.1, r.2))
      else (let (p, w₁) = system_alloc l.size l.align w in done (p, inside, a, w₁))

  -- `GlobalAlloc::dealloc`
  unfoldable pub dealloc : ℕ → Layout → Guard → Arena → World → Run (Guard × Arena × World)
  dealloc ptr l guard a w =
      if ptr == 0
      then done (guard, a, w)
      else (let (entered, inside) = enter guard in
          if entered
          then coffin_dealloc ptr l a w >>= (λ r. done (leave inside, r.0, r.1))
          else done (inside, a, system_dealloc ptr l.size l.align w))
