-- ===== src/Allocator/Threads.antt =====
-- src/lib.rs: any number of threads that allocate and free at once. A call of `coffin_alloc` has two
-- steps, `map_region` and the rest, and a call of `coffin_dealloc` has two, `check_padding` and the
-- rest; the steps of the other threads come between them.
pub mod Regions
pub mod First
pub mod Give
pub mod Register
pub mod Sound
pub mod Onward
pub mod Tests
use coffin.Prelude.{ℕ, ◌^◌, ◌≡◌, ◌≢◌, Bool, true, Option, none, some, update}
use coffin.Config.{Mode}
use coffin.Platform.{Platform}
use coffin.Region.{Layout, Geometry, geometry_for}
use coffin.Region.Bounds.{IsRequest}
use coffin.Region.Map.{done, map_region, check_padding}
use coffin.Registry.{Arena, ready, free}
use coffin.Registry.Lookup.{Tracks}
use coffin.Allocator.{Guard, enter, leave, register, settle}

-- Where a thread is: outside the allocator; behind `map_region`, with what it returned; or behind
-- `check_padding`.
pub data Phase : Type 0 where
  outside : Phase
  mapped : Layout → Geometry → Option (ℕ × ℕ) → Phase
  checked : ℕ → Layout → Geometry → Phase

-- The guard and the phase of each thread, the arena and the rest of the world.
pub record Team (os : Platform) : Type 0 where
  pub guard : ℕ → Guard
  pub phase : ℕ → Phase
  pub arena : Arena
  pub world : os.World

module _ (os : Platform) (m : Mode) (page_exp : ℕ) where
  abbrev pub page : ℕ
  page = 2 ^ page_exp

  -- What thread `i` does next. A client asks for requests in range, and gives a live pointer back with
  -- its layout, so that its region can be sealed; what it does with other pointers is free.
  pub data Moves (i : ℕ) (t : Team os) : Team os → Type 0 where
    map :
        (l : Layout) (g : Geometry) (e : ℕ)
        → t.phase i ≡ outside
        → (enter (t.guard i)).0 ≡ true
        → IsRequest l e page_exp
        → geometry_for l m page ≡ some g
        → Moves i t (record t {
          guard = update t.guard i (enter (t.guard i)).1;
          phase = update t.phase i (mapped l g (map_region os page l g t.world).0);
          world = (map_region os page l g t.world).1;
        })
    enrol :
        (l : Layout) (g : Geometry) (o : Option (ℕ × ℕ)) (p : ℕ) (a : Arena) (w : os.World)
        → t.phase i ≡ mapped l g o
        → register os m page l g o t.arena t.world ≡ done (p, a, w)
        → Moves i t (record t {
          guard = update t.guard i (leave (t.guard i));
          phase = update t.phase i outside;
          arena = a;
          world = w;
        })
    check :
        (ptr : ℕ) (l : Layout) (g : Geometry) (w : os.World)
        → t.phase i ≡ outside
        → ptr ≢ 0
        → (enter (t.guard i)).0 ≡ true
        → geometry_for l m page ≡ some g
        → check_padding os page ptr l m t.world ≡ done w
        → Moves i t (record t {
          guard = update t.guard i (enter (t.guard i)).1;
          phase = update t.phase i (checked ptr l g);
          world = w;
        })
    give :
        (ptr : ℕ) (l : Layout) (g : Geometry) (a : Arena) (w : os.World)
        → t.phase i ≡ checked ptr l g
        → ((j : ℕ)
            → Tracks t.arena.slots t.arena.cap ptr j
            → (t.arena.slots j).state ≡ ready
            → ((t.arena.slots j).total_len ≡ g.map_len)
              × ((os.mprotect_none (t.arena.slots j).base g.map_len t.world).0 ≡ true))
        → settle os m page ptr l (free os ptr g.map_len t.arena t.world) ≡ done (a, w)
        → Moves i t (record t {
          guard = update t.guard i (leave (t.guard i));
          phase = update t.phase i outside;
          arena = a;
          world = w;
        })

  -- Any moves of any threads.
  pub data Reached (t : Team os) : Team os → Type 0 where
    still : Reached t t
    later : (i : ℕ) {t' t'' : Team os} → Reached t t' → Moves i t' t'' → Reached t t''
