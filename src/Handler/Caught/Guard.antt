-- ===== src/Handler/Caught/Guard.antt =====
-- A write next to a live buffer.
use coffin.Prelude.{
  ℕ, ◌+◌, ◌≤◌, ◌<◌, ◌≡◌, refl, ap, ◌∙◌, Bool, true, false, ◌++◌, List, ◌∷◌, some, arith, le→leb,
  lt→ltb, update_self,
}
use coffin.Config.{Mode, above, below}
use coffin.Platform.{Platform}
use coffin.Platform.Laws.{sealed, within, IsSystem}
use coffin.Region.{Layout, Geometry, geometry_for}
use coffin.Region.Bounds.{Fences}
use coffin.Region.Map.{done, map_region}
use coffin.Registry.{Region, Arena}
use coffin.Fault.{classify}
use coffin.Fault.Scan.{classify-Holds}
use coffin.Allocator.{coffin_alloc}
use coffin.Allocator.Fenced.{Allocated}
use coffin.Allocator.Detect.{guard_kind, report_of, Allocated-Holds, guard_info}
use coffin.Allocator.Guarded.Map.{map_region-access}
use coffin.Allocator.Guarded.Alloc.{IsFenced, coffin_alloc-served, stored, new_slot}
use coffin.Handler.{Piece, put, Symbol, buffer_lines, framed, report, is_wild, is_use_after_free}
use coffin.Handler.Offset.{distance_line, IsDistance, offset_line-guard}
use coffin.Handler.Stack.{AllPositive, stack_lines, dump_stack-captured}
use coffin.Handler.Caught.{read_ips-alloc, report-region, region_lines-live}

guard_kind_tame :
    (m : Mode) → (is_wild (guard_kind m) ≡ false) × (is_use_after_free (guard_kind m) ≡ false)
guard_kind_tame above = (refl, refl)
guard_kind_tame below = (refl, refl)

within-of : (start len addr : ℕ) → start ≤ addr → addr < start + len → within start len addr ≡ true
within-of start len addr lo hi = rw (le→leb start addr lo, lt→ltb addr (start + len) hi) refl

-- An address on the guard page is in the region.
in_region :
    {l : Layout} {page : ℕ} {m : Mode} {g : Geometry} (f : Fences l page m g) (base addr : ℕ)
    → base + g.guard_off ≤ addr
    → addr < base + g.guard_off + page
    → (base ≤ addr) × (addr < base + g.map_len)
in_region f base addr lo hi = (omega arith, omega (arith, f.guard_inside))

module _ (resolve : ℕ → List Symbol) (sigsegv sigbus sig addr : ℕ) (symbolize : Bool)
    (os : Platform) {page : ℕ} (sys : IsSystem os page) where
  -- The lines on a region with a guard page that was touched at a distance `d` from the buffer.
  abbrev pub guard_lines : Mode → Layout → Geometry → ℕ → ℕ → List ℕ → List Piece
  guard_lines m l g base d ips =
      buffer_lines (report_of (guard_kind m) 0 l g base)
      ++ (distance_line m d ++ (put "  allocated at  :\n" ∷ stack_lines resolve symbolize ips))

  module _ {k : ℕ} {a : Arena} {w : os.World} (v : IsFenced os sys k a w) (l : Layout) (m : Mode)
      (g : Geometry) (f : Fences l page m g) (geo : geometry_for l m page ≡ some g) where
    -- On an arena whose regions are guarded, and a system that keeps the laws: a request with a fencing
    -- geometry, which the system serves with a region at `base`, while the table has room and the stack
    -- walk has no frame at address 0, gets the address of its buffer, and the regions stay guarded. An
    -- access to any address of its guard page is then refused, and the report on it names the overflow
    -- (above mode) or the underflow (below mode), the region and the buffer, the true distance of the
    -- address from the buffer, and the stack of the allocation.
    pub guard-caught :
        (base : ℕ)
        → (os.mmap g.map_len w).0 ≡ some base
        → (os.mprotect_none (base + g.guard_off) page (os.mmap g.map_len w).1).0 ≡ true
        → a.live + a.q_len < a.cap
        → AllPositive (os.trace (map_region os page l g w).1)
        → base + g.guard_off ≤ addr
        → addr < base + g.guard_off + page
        → let w' = (map_region os page l g w).1 in
          (b : Arena) × (d : ℕ) × (coffin_alloc os m page l a w ≡ done (base + g.user_off, b, w'))
          × IsFenced os sys k b w'
          × (sys.access addr w' ≡ sealed)
          × IsDistance m l (base + g.user_off) addr d
          × (report resolve sigsegv sigbus page (some b) sig addr symbolize
              ≡ framed sigsegv sigbus sig addr symbolize
                  (some (guard_kind m))
                  (guard_lines m l g base d (os.trace w')))
    guard-caught base at s room frames_ok lo hi =
        let (i, h, e, fenced) = coffin_alloc-served os sys v l m g f geo base at s room in
        let b = stored os sys v l m g f base at s i in
        let slot : b.slots i ≡ new_slot os sys v l m g f base at s i = update_self a.slots _ refl in
        let t : Allocated k l g base b = record {
          valid = fenced.valid;
          apart = fenced.guarded.apart;
          slot = i;
          in_table = h;
          stored = rw slot (refl, refl, refl, refl, refl, refl, refl);
        } in
        let on_it = in_region f base addr lo hi in
        let inside = sys.mmap_inside g.map_len base w at in
        let fi = report_of (guard_kind m) i l g base in
        let found : classify page b addr ≡ fi =
          classify-Holds page b addr fenced.guarded.apart i
            (Allocated-Holds page k base l g b t addr inside on_it.0 on_it.1)
          ∙ guard_info page k base l g b t addr inside m f lo hi in
        let (d, far, true_d) = offset_line-guard page i base addr l g m f inside lo hi in
        (
          b,
          d,
          e,
          fenced,
          map_region-access os sys l m g f w base at s addr
              ∙ (rw (within-of (base + g.guard_off) page addr lo hi) refl),
          true_d,
          report-region resolve sigsegv sigbus page sig addr symbolize b fi found
                (guard_kind_tame m).0
              ∙ ap (framed sigsegv sigbus sig addr symbolize (some (guard_kind m))) (
                  region_lines-live resolve sigsegv sigbus page sig addr symbolize b fi
                    (distance_line m d)
                    (stack_lines resolve symbolize (os.trace (map_region os page l g w).1))
                    (guard_kind_tame m).1 far
                    (dump_stack-captured resolve b i false symbolize _
                      (read_ips-alloc b i h ∙ ap (λ (r : Region). r.alloc_ips) slot) frames_ok)),
        )
