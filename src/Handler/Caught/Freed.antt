-- ===== src/Handler/Caught/Freed.antt =====
-- A touch of a region that was freed.
use coffin.Prelude.{
  ℕ, ◌-◌, ◌<◌, ◌≡◌, refl, ap, ◌∙◌, Bool, true, ◌++◌, List, [], ◌∷◌, some, inl, inr, leb, arith,
  if◌then◌else◌, word,
}
use coffin.Config.{Mode}
use coffin.Platform.{Platform}
use coffin.Platform.Laws.{sealed, IsSystem}
use coffin.Region.{Layout, Geometry, geometry_for}
use coffin.Region.Bounds.{Fences}
use coffin.Region.Map.{done, check_padding}
use coffin.Registry.{Region, Arena, ready, capture_ips, free}
use coffin.Registry.Lookup.{Tracks}
use coffin.Fault.{use_after_free, FaultInfo, info_of, covers, classify}
use coffin.Fault.Scan.{Holds}
use coffin.Fault.Freed.{free-IsFreeing, free-cap, free-classify}
use coffin.Allocator.{coffin_dealloc}
use coffin.Allocator.Guarded.{IsWhole}
use coffin.Allocator.Guarded.Alloc.{IsFenced}
use coffin.Allocator.Guarded.Dealloc.{IsLaid, coffin_dealloc-ready}
use coffin.Handler.{Piece, put, dec, Symbol, buffer_lines, framed, report}
use coffin.Inspect.{slot_state}
use coffin.Inspect.Accounts.{slot_state-free}
use coffin.Registry.Free.{free-ready}
use coffin.Handler.Offset.{offset_line-freed}
use coffin.Handler.Stack.{AllPositive, stack_lines, dump_stack-captured}
use coffin.Handler.Caught.{read_ips-alloc, read_ips-free, report-region, region_lines-freed}

-- What the scan finds of a freed slot.
abbrev pub freed_info : Region → ℕ → FaultInfo
freed_info r i = record {
  kind = use_after_free;
  slot = i;
  base = r.base;
  total_len = r.total_len;
  user_ptr = r.user_ptr;
  size = r.size;
  align = r.align;
}

-- The line on the distance from the start of a freed buffer, which is no distance below it.
abbrev pub into_line : ℕ → ℕ → List Piece
into_line user addr =
    put "  offset        : "
    ∷ dec (if leb user addr then addr - user else word - (user - addr))
    ∷ put " byte(s) into the freed buffer\n"
    ∷ []

-- The addresses of a region are words.
covers-word :
    (page : ℕ) (r : Region) (addr : ℕ) → IsWhole page r → covers r addr ≡ true → addr < word
covers-word page r addr v c = ground (arith, v.inside)

module _ (resolve : ℕ → List Symbol) (sigsegv sigbus sig addr : ℕ) (symbolize : Bool)
    (os : Platform) {page : ℕ} (sys : IsSystem os page) where
  -- The lines on a freed region, with the stacks of its allocation and of its free.
  abbrev pub freed_lines : FaultInfo → List ℕ → List ℕ → List Piece
  freed_lines fi allocated_at freed_at =
      buffer_lines fi
      ++ (into_line fi.user_ptr addr
          ++ (put "  allocated at  :\n"
              ∷ (stack_lines resolve symbolize allocated_at
                  ++ (put "  freed at      :\n" ∷ stack_lines resolve symbolize freed_at))))

  module _ {k : ℕ} {a : Arena} {w : os.World} (v : IsFenced os sys k a w) (l : Layout) (m : Mode)
      (g : Geometry) (f : Fences l page m g) (geo : geometry_for l m page ≡ some g) (ptr i : ℕ)
      (t : Tracks a.slots a.cap ptr i) (laid : IsLaid (a.slots i) g)
      (live : (a.slots i).state ≡ ready) where
    -- What the scan finds at an address of the region after the free.
    found_freed :
        (u : os.World)
        → covers (a.slots i) addr ≡ true
        → classify page (free os ptr g.map_len a u).1 addr ≡ freed_info (a.slots i) i
    unfolding info_of
    found_freed u c = free-classify os v.valid ptr i g.map_len u t live page addr v.guarded.apart c

    Holds-freed :
        (u : os.World)
        → covers (a.slots i) addr ≡ true
        → Holds (free os ptr g.map_len a u).1.slots (free os ptr g.map_len a u).1.cap addr i
    Holds-freed u c =
        let after = free-IsFreeing os v.valid ptr i g.map_len u t live in
        (
          rw (free-cap os v.valid ptr i g.map_len u t live) t.0,
          rw after.marked refl,
          after.kept addr ∙ c,
        )

    pub access_freed :
        (u : os.World)
        → IsFenced os sys k (free os ptr g.map_len a u).1 (free os ptr g.map_len a u).2
        → covers (a.slots i) addr ≡ true
        → sys.access addr (free os ptr g.map_len a u).2 ≡ sealed
    access_freed u fenced c =
        let after = free-IsFreeing os v.valid ptr i g.map_len u t live in
        fenced.guarded.fenced addr i (Holds-freed u c) ∙ (rw after.marked refl)

    pub state_freed : (u : os.World) → slot_state (free os ptr g.map_len a u).1 ptr ≡ some "freed"
    state_freed u =
        let answer = ap (λ r. r.0) (free-ready os v.valid ptr g.map_len u i t live) in
        elim (slot_state-free os v.valid u ptr g.map_len) [
          | inl (_, _, after) ↦ after
          | inr (inl (_, other)) ↦ cc (answer, other)
          | inr (inr (_, other)) ↦ cc (answer, other)
        ]

    -- What the report prints on that region.
    region_freed :
        (u : os.World) (ips : List ℕ)
        → covers (a.slots i) addr ≡ true
        → (a.slots i).alloc_ips ≡ capture_ips ips
        → AllPositive ips
        → AllPositive (os.trace u)
        → report resolve sigsegv sigbus page (some (free os ptr g.map_len a u).1) sig addr symbolize
          ≡ framed sigsegv sigbus sig addr symbolize
              (some use_after_free)
              (freed_lines (freed_info (a.slots i) i) ips (os.trace u))
    region_freed u ips c kept ok ok' =
        let b = (free os ptr g.map_len a u).1 in
        let after = free-IsFreeing os v.valid ptr i g.map_len u t live in
        let in_table = Holds-freed u c in
        let whole = v.guarded.whole i t.0 t.1 in
        report-region resolve sigsegv sigbus page sig addr symbolize b (freed_info (a.slots i) i)
          (found_freed u c) refl
        ∙ ap (framed sigsegv sigbus sig addr symbolize (some use_after_free)) (
            region_lines-freed resolve sigsegv sigbus page sig addr symbolize b
              (freed_info (a.slots i) i) (into_line (a.slots i).user_ptr addr)
              (stack_lines resolve symbolize ips) (stack_lines resolve symbolize (os.trace u)) refl
              (offset_line-freed (freed_info (a.slots i) i) addr refl
                (covers-word page (a.slots i) (a.slots i).user_ptr whole whole.user_inside)
                (covers-word page (a.slots i) addr whole c))
              (dump_stack-captured resolve b i _ symbolize ips
                (read_ips-alloc b i in_table.0 ∙ after.allocated_at ∙ kept) ok)
              (dump_stack-captured resolve b i _ symbolize (os.trace u)
                (read_ips-free b i in_table.0 ∙ after.freed_at) ok'))

    -- On an arena whose regions are guarded, and a system that keeps the laws: a live pointer is given
    -- back with its layout, where `mprotect` seals its region when it is called, behind the check of
    -- the padding, and neither its stored stack nor a stack walk has a frame at address 0. Then
    -- `dealloc` comes to an end, the regions stay guarded and the pointer is "freed". An access to any
    -- address of the region is refused, and the report on it says a use after free, with the region and
    -- the buffer, the offset, the stack of the allocation and that of the free.
    pub freed-caught :
        ((u : os.World)
          → check_padding os page ptr l m w ≡ done u
          → (os.mprotect_none (a.slots i).base g.map_len u).0 ≡ true)
        → (ips : List ℕ) → (a.slots i).alloc_ips ≡ capture_ips ips
        → AllPositive ips
        → ((u : os.World) → AllPositive (os.trace u))
        → covers (a.slots i) addr ≡ true
        → (b : Arena) × (w' u : os.World) × (coffin_dealloc os m page ptr l a w ≡ done (b, w'))
          × (check_padding os page ptr l m w ≡ done u)
          × IsFenced os sys k b w'
          × (slot_state b ptr ≡ some "freed")
          × (sys.access addr w' ≡ sealed)
          × (report resolve sigsegv sigbus page (some b) sig addr symbolize
              ≡ framed sigsegv sigbus sig addr symbolize
                  (some use_after_free)
                  (freed_lines (freed_info (a.slots i) i) ips (os.trace u)))
    freed-caught ok ips kept ok_ips ok_trace c =
        let (u, checked, ran, fenced) =
          coffin_dealloc-ready os sys v l m g f geo ptr i t laid live ok in
        (
          _,
          _,
          u,
          ran,
          checked,
          fenced,
          state_freed u,
          access_freed u fenced c,
          region_freed u ips c kept ok_ips (ok_trace u),
        )
