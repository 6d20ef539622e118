-- ===== src/Allocator/Fenced.antt =====
-- What a caller gets from a successful allocation.
use coffin.Prelude.{
  ℕ, ◌+◌, ◌%◌, ◌≤◌, ◌<◌, ◌≡◌, Bool, true, Option, some, arith, ltb→lt, leb→le, update, word,
  wrapping_add,
}
use Prim.Native.Nat.{max}
use mathlib.Core.Path.{subst}
use coffin.Config.{Mode}
use coffin.Platform.{Platform}
use coffin.Region.{Layout, Geometry, geometry_for}
use coffin.Region.Map.{done, map_region}
use coffin.Registry.{Region, Arena, is_vacant, ready, publish, capture_ips, insert}
use coffin.Registry.Lookup.{IsFresh}
use coffin.Registry.Invariant.{IsValid, insert-IsValid}
use coffin.Registry.Room.{insert-stores}
use coffin.Fault.{covers}
use coffin.Fault.Scan.{Holds, IsApart}
use coffin.Allocator.{entry_of, register, coffin_alloc}
use coffin.Fault.Apart.{update-IsApart}

-- `mmap` and `mprotect` served the request, the region is inside the address space and on whole
-- pages, and no tracked region holds one of its addresses.
pub record Serves (os : Platform) (page : ℕ) (g : Geometry) (a : Arena) (w : os.World) (base : ℕ)
    : Type 0 where
  pub mapped : (os.mmap g.map_len w).0 ≡ some base
  pub sealed : (os.mprotect_none (base + g.guard_off) page (os.mmap g.map_len w).1).0 ≡ true
  pub whole : base % page ≡ 0
  pub inside : base + g.map_len < word
  pub apart : (addr i : ℕ) → Holds a.slots a.cap addr i → base ≤ addr → addr < base + g.map_len → ⊥
  pub fresh : IsFresh a.slots a.cap (base + g.user_off)

pub map_region-some :
    (os : Platform) (page : ℕ) (l : Layout) (g : Geometry) {a : Arena} {w : os.World} {base : ℕ}
    → Serves os page g a w base
    → (map_region os page l g w).0 ≡ some (base, base + g.user_off)
unfolding map_region
map_region-some os page l g s = rw (s.mapped, map_region) (rw (s.sealed, map_region))

-- The slot of a live region.
abbrev pub Slot : Region → Layout → Geometry → ℕ → Type 0
Slot r l g base =
    (r.state ≡ ready)
    × (r.base ≡ base)
    × (r.total_len ≡ g.map_len)
    × (r.user_ptr ≡ base + g.user_off)
    × (r.size ≡ max l.size 1)
    × (r.align ≡ l.align)
    × (r.guard_addr ≡ wrapping_add base g.guard_off)

-- The arena after the allocation: it is valid, regions are apart, and a slot describes the region.
pub record Allocated (k : ℕ) (l : Layout) (g : Geometry) (base : ℕ) (b : Arena) : Type 0 where
  pub valid : IsValid k b
  pub apart : IsApart b.slots b.cap
  pub slot : ℕ
  pub in_table : slot < b.cap
  pub stored : Slot (b.slots slot) l g base

module _ (os : Platform) (mode : Mode) (page k base : ℕ) (l : Layout) (g : Geometry) (a : Arena)
    (w : os.World) (v : IsValid k a) (p : IsApart a.slots a.cap)
    (s : Serves os page g a w base) where
  -- The arena with the region in slot `i`.
  abbrev pub with_region : ℕ → os.World → Arena
  with_region i w' = record a {
    slots =
        update a.slots i
          (publish (entry_of base (base + g.user_off) l g) (capture_ips (os.trace w')) (a.slots i));
    live = wrapping_add a.live 1;
  }

  with_region-IsApart : (i : ℕ) (w' : os.World) → IsApart (with_region i w').slots a.cap
  with_region-IsApart i w' =
      update-IsApart a.slots a.cap i r p
        (λ addr j n h u c. let t = held addr c in s.apart addr j h t.0 t.1)
    where
      r : Region
      r = publish (entry_of base (base + g.user_off) l g) (capture_ips (os.trace w')) (a.slots i)

      held : (addr : ℕ) → covers r addr ≡ true → (base ≤ addr) × (addr < base + g.map_len)
      held addr h = (
        leb→le _ _ (ground arith),
        omega (arith, ltb→lt addr (wrapping_add base g.map_len) (ground arith), s.inside),
      )

  register-stores :
      (i : ℕ) (w' : os.World) (o : Option (ℕ × ℕ))
      → o ≡ some (base, base + g.user_off)
      → insert os (entry_of base (base + g.user_off) l g) a w' ≡ (true, with_region i w')
      → register os mode page l g o a w' ≡ done (base + g.user_off, with_region i w', w')
  unfolding register
  register-stores i w' o at e = rw (at, register) (rw (e, register))

  -- The store goes to a vacant slot of the table.
  pub coffin_alloc-stores :
      geometry_for l mode page ≡ some g
      → a.live + a.q_len < a.cap
      → let w' = (map_region os page l g w).1 in
        (i : ℕ) × (i < a.cap)
        × (is_vacant (a.slots i).state ≡ true)
        × IsValid k (with_region i w')
        × (coffin_alloc os mode page l a w ≡ done (base + g.user_off, with_region i w', w'))
  unfolding coffin_alloc
  coffin_alloc-stores geo room =
      let (i, h, old, e) =
        insert-stores v os (entry_of base (base + g.user_off) l g) (map_region os page l g w).1
          room in
      (
        i,
        h,
        old,
        subst (λ (r : Bool × Arena). IsValid k r.1) e
            (insert-IsValid v os (entry_of base (base + g.user_off) l g) _ s.fresh),
        rw (geo, coffin_alloc) (register-stores i _ _ (map_region-some os page l g s) e),
      )

  -- On a valid arena with room, whose regions are apart, a request with a geometry that the system
  -- serves with a region apart from the tracked ones gets the buffer's address in that region, and
  -- leaves a valid arena whose regions are apart and one of whose slots describes the region as live.
  pub coffin_alloc-Allocated :
      geometry_for l mode page ≡ some g
      → a.live + a.q_len < a.cap
      → (b : Arena) × (coffin_alloc os mode page l a w
          ≡ done (base + g.user_off, b, (map_region os page l g w).1))
        × Allocated k l g base b
  coffin_alloc-Allocated geo room =
      let (i, h, _, valid, e) = coffin_alloc-stores geo room in
      (
        with_region i (map_region os page l g w).1,
        e,
        record {
          valid = valid;
          apart = with_region-IsApart i _;
          slot = i;
          in_table = h;
          stored = ground arith;
        },
      )
