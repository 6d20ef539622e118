-- ===== src/Allocator/Guarded/Alloc.antt =====
-- `coffin_alloc` keeps every tracked region guarded, whether the system serves it or not.
use coffin.Prelude.{
  ℕ, ◌+◌, ◌≡◌, refl, sym, ap, ◌∙◌, Bool, true, false, Option, some, inl, inr, arith, Bool-cases,
  if◌then◌else◌, leb, ltb, wrapping_add, ◌&&◌, ◌<◌,
}
use native.Mathlib.Decide.{dec_lt}
use coffin.Config.{Mode}
use coffin.Platform.{Platform}
use coffin.Platform.Laws.{within, IsSystem}
use coffin.Region.{Layout, Geometry, geometry_for}
use coffin.Region.Bounds.{Fences}
use coffin.Region.Map.{done, map_region}
use coffin.Registry.{Region, Arena, publish, capture_ips, insert}
use coffin.Registry.Invariant.{IsValid}
use coffin.Registry.Room.{insert-full}
use coffin.Fault.{covers, in_guard}
use coffin.Fault.Scan.{Holds}
use coffin.Allocator.{entry_of, warn_full_once, register, coffin_alloc}
use coffin.Allocator.Fenced.{Serves, map_region-some, with_region, coffin_alloc-stores}
use coffin.Allocator.Guarded.{IsGuarded, Holds-is_ours, world-IsGuarded, update-IsGuarded}
use coffin.Allocator.Guarded.Map.{
  Keeps, Keeps-trans, ours_outside, mapped_access-ours, map_region-access, map_region-cases,
}

-- The arena is valid, and its regions are guarded in the world.
pub record IsFenced (os : Platform) {page : ℕ} (sys : IsSystem os page) (k : ℕ) (a : Arena)
    (w : os.World) : Type 0 where
  pub valid : IsValid k a
  pub guarded : IsGuarded os sys a.slots a.cap w

module _ (os : Platform) {page : ℕ} (sys : IsSystem os page) {k : ℕ} {a : Arena} {w : os.World}
    (v : IsFenced os sys k a w) (l : Layout) (m : Mode) (g : Geometry) (f : Fences l page m g) where
  open sys use {access}

  module _ (base : ℕ) (at : (os.mmap g.map_len w).0 ≡ some base)
      (s : (os.mprotect_none (base + g.guard_off) page (os.mmap g.map_len w).1).0 ≡ true) where
    -- No tracked region has an address in the new mapping.
    new-apart : (addr i : ℕ) → Holds a.slots a.cap addr i → within base g.map_len addr ≡ true → ⊥
    new-apart addr i h n =
        cc (ours_outside os sys l m g f w base at addr (Holds-is_ours os sys v.guarded addr i h), n)

    user_within : within base g.map_len (base + g.user_off) ≡ true
    user_within = ground (arith, f.buffer_inside)

    pub served : Serves os page g a w base
    served = record {
      mapped = at;
      sealed = s;
      whole = sys.mmap_whole g.map_len base w at;
      inside = sys.mmap_inside g.map_len base w at;
      apart = λ addr i h lo hi. new-apart addr i h (ground arith);
      fresh = λ i h u e.
          new-apart (base + g.user_off) i (h, u, rw (← e) (v.guarded.whole i h u).user_inside)
            user_within;
    }

    abbrev pub after : os.World
    after = (map_region os page l g w).1

    abbrev pub new_slot : ℕ → Region
    new_slot i =
        publish (entry_of base (base + g.user_off) l g) (capture_ips (os.trace after)) (a.slots i)

    abbrev pub stored : ℕ → Arena
    stored i = with_region os m page k base l g a w v.valid v.guarded.apart served i after

    -- The guard page does not wrap around.
    pub guard_start : wrapping_add base g.guard_off ≡ base + g.guard_off
    guard_start = omega (arith, sys.mmap_inside g.map_len base w at, f.guard_inside)

    in_guard-within :
        (i addr : ℕ) → in_guard page (new_slot i) addr ≡ within (base + g.guard_off) page addr
    in_guard-within i addr =
        ap (λ s. leb s addr && ltb addr (wrapping_add s page)) guard_start
        ∙ ap (λ t. leb (base + g.guard_off) addr && ltb addr t) sum
      where
        sum : wrapping_add (base + g.guard_off) page ≡ base + g.guard_off + page
        sum = omega (arith, sys.mmap_inside g.map_len base w at, f.guard_inside)

    covers-within : (i addr : ℕ) → covers (new_slot i) addr ≡ within base g.map_len addr
    covers-within i addr = ap (λ t. leb base addr && ltb addr t) sum
      where
        sum : wrapping_add base g.map_len ≡ base + g.map_len
        sum = omega (arith, sys.mmap_inside g.map_len base w at)

    stored-IsGuarded : (i : ℕ) → IsGuarded os sys (stored i).slots a.cap after
    stored-IsGuarded i =
        update-IsGuarded os sys v.guarded i (new_slot i) after
          (λ addr j n h.
            map_region-access os sys l m g f w base at s addr
            ∙ mapped_access-ours os sys l m g f w base at addr
                (Holds-is_ours os sys v.guarded addr j h))
          (λ u. record {
            base_whole = sys.mmap_whole g.map_len base w at;
            len_whole = f.map_whole;
            inside = sys.mmap_inside g.map_len base w at;
            user_inside = covers-within i (base + g.user_off) ∙ user_within;
          })
          (λ addr j n h u c. new-apart addr j h (sym (covers-within i addr) ∙ c))
          (λ addr u c.
            map_region-access os sys l m g f w base at s addr
            ∙ rw (in_guard-within i addr, sym (covers-within i addr) ∙ c) refl)

    -- Without room the region is given back, and the system allocator serves.
    abbrev returned : Arena × os.World
    returned = warn_full_once os m page a (os.munmap base g.map_len after)

    returned-Keeps : Keeps os sys w (os.munmap base g.map_len after)
    returned-Keeps addr o =
        sys.munmap_outside base g.map_len after (sys.mmap_whole g.map_len base w at) f.map_whole
          addr (ours_outside os sys l m g f w base at addr o)
        ∙ map_region-access os sys l m g f w base at s addr
        ∙ mapped_access-ours os sys l m g f w base at addr o

    warn-Keeps : (u : os.World) → Keeps os sys u (warn_full_once os m page a u).1
    unfolding warn_full_once
    warn-Keeps u addr o = elim (Bool-cases a.full_warned) [
      | inl e ↦ rw e refl
      | inr e ↦ rw e (sys.write_stderr_access _ u addr)
    ]

    -- The flag is no part of what the invariant says.
    warned-IsFenced :
        (u x u' : os.World) (warned : Bool)
        → Keeps os sys w u'
        → (let r : Arena × os.World =
              if warned then (a, u) else (record a { full_warned = true }, x) in
            IsFenced os sys k r.0 u')
    warned-IsFenced u x u' true kept = record {
      valid = v.valid;
      guarded = world-IsGuarded os sys v.guarded u' kept;
    }
    warned-IsFenced u x u' false kept = record {
      valid = record {
        indexed = v.valid.indexed;
        queue = v.valid.queue;
        live_count = v.valid.live_count;
        freed_count = v.valid.freed_count;
        ring = v.valid.ring;
      };
      guarded = world-IsGuarded os sys v.guarded u' kept;
    }

    full-IsFenced : IsFenced os sys k returned.0 (os.system_alloc l.size l.align returned.1).1
    unfolding warn_full_once
    full-IsFenced = warned-IsFenced _ _ _ a.full_warned (
        Keeps-trans os sys (Keeps-trans os sys returned-Keeps (warn-Keeps _))
          (sys.system_alloc_access l.size l.align returned.1))

    full-register :
        (o : Option (ℕ × ℕ))
        → o ≡ some (base, base + g.user_off)
        → insert os (entry_of base (base + g.user_off) l g) a after ≡ (false, a)
        → register os m page l g o a after
          ≡ done (
            (os.system_alloc l.size l.align returned.1).0,
            returned.0,
            (os.system_alloc l.size l.align returned.1).1,
          )
    unfolding register
    full-register o e full = rw (e, register) (rw (full, register) refl)

  -- With room, a request that the system serves gets a region in some slot of the table.
  pub coffin_alloc-served :
      geometry_for l m page ≡ some g
      → (base : ℕ) (at : (os.mmap g.map_len w).0 ≡ some base)
        (s : (os.mprotect_none (base + g.guard_off) page (os.mmap g.map_len w).1).0 ≡ true)
      → a.live + a.q_len < a.cap
      → (i : ℕ) × (i < a.cap)
        × (coffin_alloc os m page l a w
            ≡ done (base + g.user_off, stored base at s i, after base at s))
        × IsFenced os sys k (stored base at s i) (after base at s)
  coffin_alloc-served geo base at s room =
      let (i, h, old, valid, e) =
        coffin_alloc-stores os m page k base l g a w v.valid v.guarded.apart (served base at s) geo
          room in
      (i, h, e, record { valid = valid; guarded = stored-IsGuarded base at s i })

  -- From a fenced arena, a request in range ends in a fenced arena: the region that it gets is guarded
  -- as the others are; if the system refuses it, or the table is full, these stay as they were.
  pub coffin_alloc-IsFenced :
      geometry_for l m page ≡ some g
      → (ptr : ℕ) × (b : Arena) × (w' : os.World) × (coffin_alloc os m page l a w
          ≡ done (ptr, b, w'))
        × IsFenced os sys k b w'
  unfolding coffin_alloc register
  coffin_alloc-IsFenced geo = elim (map_region-cases os sys l m g f w) [
    | inl (e, kept) ↦ (
      0,
      a,
      _,
      rw (geo, coffin_alloc) (rw (e, register) refl),
      record { valid = v.valid; guarded = world-IsGuarded os sys v.guarded _ kept },
    )
    | inr (base, at, s) ↦ elim (dec_lt (a.live + a.q_len) a.cap) [
      | yes room ↦
          let (i, h, e, fenced) = coffin_alloc-served geo base at s room in (_, _, _, e, fenced)
      | no room ↦
          let full =
            insert-full v.valid os (entry_of base (base + g.user_off) l g) (after base at s)
              (omega arith) in
          (
            (os.system_alloc l.size l.align (returned base at s).1).0,
            (returned base at s).0,
            (os.system_alloc l.size l.align (returned base at s).1).1,
            rw (geo, coffin_alloc)
                (full-register base at s _ (map_region-some os page l g (served base at s)) full),
            full-IsFenced base at s,
          )
    ]
  ]
