-- ===== src/Allocator/Detect.antt =====
-- What a fault next to a fresh allocation is reported as.
use coffin.Prelude.{
  ℕ, ◌+◌, ◌%◌, ◌^◌, ◌≤◌, ◌<◌, ◌≡◌, ◌∙◌, some, arith, lt→ltb, le→leb, leb, leb-false, if◌then◌else◌,
  wrapping_add, word,
}
use Prim.Native.Nat.{max}
use coffin.Config.{Mode, above, below}
use coffin.Platform.{Platform}
use coffin.Region.{Layout, Geometry, geometry_for}
use coffin.Region.Bounds.{IsRequest, Fences, Fences-of}
use coffin.Region.Multiples.{mod-pow, sum-mod}
use coffin.Region.Map.{done, map_region}
use coffin.Registry.{Region, Arena, ready}
use coffin.Registry.Invariant.{IsValid}
use coffin.Fault.{FaultKind, overflow, underflow, FaultInfo, info_of, kind_of, classify}
use coffin.Fault.Scan.{Holds, IsApart, classify-Holds}
use coffin.Allocator.{coffin_alloc}
use coffin.Allocator.Fenced.{Serves, Allocated, coffin_alloc-Allocated}

-- The kind of a fault on the guard page.
abbrev pub guard_kind : Mode → FaultKind
guard_kind above = overflow
guard_kind below = underflow

-- The report of an allocation.
abbrev pub report_of : FaultKind → ℕ → Layout → Geometry → ℕ → FaultInfo
report_of kind slot l g base = record {
  kind = kind;
  slot = slot;
  base = base;
  total_len = g.map_len;
  user_ptr = base + g.user_off;
  size = max l.size 1;
  align = l.align;
}

kind_of-guard :
    (page : ℕ) (r : Region) (addr : ℕ)
    → r.state ≡ ready
    → r.guard_addr ≤ addr
    → addr < wrapping_add r.guard_addr page
    → kind_of page r addr ≡ (if leb r.user_ptr r.guard_addr then overflow else underflow)
unfolding kind_of
kind_of-guard page r addr s lo hi =
    rw (s, kind_of, le→leb r.guard_addr addr lo, lt→ltb addr (wrapping_add r.guard_addr page) hi)

-- The side on which the buffer stands.
guard_side :
    (page base : ℕ) (l : Layout) (g : Geometry) (m : Mode) (r : Region)
    → Fences l page m g
    → r.user_ptr ≡ base + g.user_off
    → r.guard_addr ≡ base + g.guard_off
    → 0 < page
    → (if leb r.user_ptr r.guard_addr then overflow else underflow) ≡ guard_kind m
guard_side page base l g above r f u v h =
    rw (u, v, le→leb (base + g.user_off) (base + g.guard_off) (omega (arith, f.abuts.0)))
guard_side page base l g below r f u v h =
    rw (u, v, leb-false (base + g.user_off) (base + g.guard_off) (omega (arith, f.abuts)))

module _ (page k base : ℕ) (l : Layout) (g : Geometry) (b : Arena) (t : Allocated k l g base b)
    (addr : ℕ) (inside : base + g.map_len < word) where
  pub Allocated-Holds : base ≤ addr → addr < base + g.map_len → Holds b.slots b.cap addr t.slot
  Allocated-Holds lo hi = (
    t.in_table,
    ground (arith, t.stored),
    ground (arith, t.stored, le→leb base addr lo, lt→ltb addr (base + g.map_len) hi),
  )

  abbrev pub told : ℕ → FaultKind → FaultInfo
  told slot kind = report_of kind slot l g base

  -- A report with the fields of the slot.
  stored_info :
      (kind : FaultKind)
      → kind_of page (b.slots t.slot) addr ≡ kind
      → info_of page b.slots addr t.slot ≡ told t.slot kind
  unfolding info_of
  stored_info kind e = let (_, e₁, e₂, e₃, e₄, e₅, _) = t.stored in rw (e, e₁, e₂, e₃, e₄, e₅)

  pub guard_info :
      (m : Mode)
      → Fences l page m g
      → base + g.guard_off ≤ addr
      → addr < base + g.guard_off + page
      → info_of page b.slots addr t.slot ≡ told t.slot (guard_kind m)
  guard_info m f lo hi =
      let (s, _, _, u, _, _, v) = t.stored in
      stored_info (guard_kind m) (
        kind_of-guard page (b.slots t.slot) addr s (omega arith) (omega (arith, f.guard_inside))
        ∙ guard_side page base l g m (b.slots t.slot) f u
            (v ∙ omega (arith, inside, f.guard_inside)) (omega arith))

module _ (os : Platform) (m : Mode) (k base align_exp page_exp addr : ℕ) (l : Layout) (g : Geometry)
    (a : Arena) (w : os.World) where
  abbrev page : ℕ
  page = 2 ^ page_exp

  -- On a valid arena with room, whose regions are apart, a request in range that the system serves with
  -- a region apart from the tracked ones gets an aligned pointer; afterwards every address on the guard
  -- page is classified as an overflow (above mode) or an underflow (below mode) of that allocation.
  pub coffin_alloc-detects :
      IsValid k a
      → IsApart a.slots a.cap
      → Serves os page g a w base
      → IsRequest l align_exp page_exp
      → geometry_for l m page ≡ some g
      → a.live + a.q_len < a.cap
      → base + g.guard_off ≤ addr
      → addr < base + g.guard_off + page
      → (b : Arena) × (slot : ℕ) × (coffin_alloc os m page l a w
          ≡ done (base + g.user_off, b, (map_region os page l g w).1))
        × ((base + g.user_off) % l.align ≡ 0)
        × (classify page b addr ≡ report_of (guard_kind m) slot l g base)
  coffin_alloc-detects v p s r geo room lo hi =
      let (b, e, t) = coffin_alloc-Allocated os m page k base l g a w v p s geo room in
      (
        b,
        t.slot,
        e,
        sum-mod base g.user_off l.align whole fences.user_aligned,
        classify-Holds page b addr t.apart t.slot (
              Allocated-Holds page k base l g b t addr s.inside (omega arith)
                (omega (arith, fences)))
            ∙ guard_info page k base l g b t addr s.inside m fences lo hi,
      )
    where
      fences : Fences l page m g
      fences = Fences-of l align_exp page_exp m g r geo

      whole : base % l.align ≡ 0
      whole = rw r.aligned (mod-pow base align_exp page_exp r.within_page s.whole)
