-- ===== src/Allocator/Guarded/Dealloc.antt =====
-- `coffin_dealloc` of a live pointer and of a freed one.
use coffin.Prelude.{
  ℕ, zero, suc, ◌+◌, ◌<◌, ◌≡◌, refl, ap, ◌∙◌, Bool, true, false, inl, inr, arith, Bool-cases,
  Option, none, some, if◌then◌else◌, ◌==◌, ==_false, ==_iff,
}
use Prim.Native.Nat.{max}
use mathlib.Core.Path.{subst}
use native.Mathlib.Nat.{add-zero}
use native.Mathlib.Decide.{ℕ_discrete}
use coffin.Config.{Mode, above, below}
use coffin.Platform.{Platform}
use coffin.Platform.Laws.{writable, sealed, IsSystem}
use coffin.Region.{Layout, Geometry, geometry_for, poison}
use coffin.Region.Bounds.{Fences}
use coffin.Region.Map.{done, faulted, scan_padding, check_padding}
use coffin.Registry.{Region, Arena, ready, freed, free}
use coffin.Registry.Lookup.{Tracks, IsFresh}
use coffin.Registry.Free.{free-ready, free-freed, free-absent}
use coffin.Fault.{covers, in_guard}
use coffin.Allocator.{settle, coffin_dealloc}
use coffin.Allocator.Guarded.{IsWhole, promised, world-IsGuarded}
use coffin.Allocator.Guarded.Map.{Keeps, Keeps-trans}
use coffin.Allocator.Guarded.Alloc.{IsFenced}
use coffin.Allocator.Guarded.Free.{free-IsFenced}

-- The slot describes a region that was laid out so.
abbrev pub IsLaid : Region → Geometry → Type 0
IsLaid r g =
    (r.total_len ≡ g.map_len)
    × (r.user_ptr ≡ r.base + g.user_off)
    × (r.guard_addr ≡ r.base + g.guard_off)

-- The padding is between the buffer and the guard page.
module _ (page : ℕ) (l : Layout) (m : Mode) (g : Geometry) (f : Fences l page m g) (r : Region)
    (v : IsWhole page r) (laid : IsLaid r g) (j : ℕ) (h : j < g.pad) where
  padding_end : (m : Mode) → Fences l page m g → g.user_off + max l.size 1 + g.pad ≡ g.guard_off
  padding_end above f = f.abuts.0
  padding_end below f = absurd (omega (arith, f.abuts))

  padding_covered : covers r (r.user_ptr + max l.size 1 + j) ≡ true
  padding_covered = ground (arith, laid, v.inside, f.buffer_inside)

  padding_unguarded : in_guard page r (r.user_ptr + max l.size 1 + j) ≡ false
  padding_unguarded = ground (arith, laid, padding_end m f)

module _ (os : Platform) {page : ℕ} (sys : IsSystem os page) where
  open sys use {access}

  pub settle-true :
      (ptr : ℕ) (l : Layout) (m : Mode) (r : Option Bool × Arena × os.World)
      → r.0 ≡ some true
      → settle os m page ptr l r ≡ done (r.1, r.2)
  unfolding settle
  settle-true ptr l m (some true, a, w) e = refl
  settle-true ptr l m (some false, a, w) e = cc
  settle-true ptr l m (none, a, w) e = cc

  abbrev pub IsReadable : ℕ → os.World → Type 0
  IsReadable addr w = (b : ℕ) × (os.read_byte addr w ≡ some b)

  -- Readable padding is looked at to its end, or to the byte that is reported.
  scan_padding-done :
      (n addr : ℕ) (w : os.World)
      → ((j : ℕ) → j < n → IsReadable (addr + j) w)
      → (w' : os.World) × (scan_padding os page n addr w ≡ done w') × Keeps os sys w w'
  unfolding scan_padding
  scan_padding-done zero addr w h = (w, refl, λ x o. refl)
  scan_padding-done (suc n) addr w h =
      let (b, e) : IsReadable addr w =
        subst (λ x. IsReadable x w) (add-zero addr) (h 0 (omega arith)) in
      let (w', e', kept) = scan_padding-done n (addr + 1) w (λ j p.
        subst (λ x. IsReadable x w) {y = addr + 1 + j} (omega arith) (h (suc j) (omega arith))) in
      elim (Bool-cases (b == poison)) [
        | inl p ↦ (w', rw (e, scan_padding) (rw p e'), kept)
        | inr p ↦ (
          os.write_stderr "coffin: overflow into alignment padding detected at free\n" w,
          rw (e, scan_padding) (rw p refl),
          λ x o. sys.write_stderr_access _ w x,
        )
      ]

  -- The check of readable padding comes to an end.
  check_padding-done :
      (l : Layout) (m : Mode) (g : Geometry) (ptr : ℕ) (w : os.World)
      → geometry_for l m page ≡ some g
      → ((j : ℕ) → j < g.pad → IsReadable (ptr + max l.size 1 + j) w)
      → (w' : os.World) × (check_padding os page ptr l m w ≡ done w') × Keeps os sys w w'
  unfolding check_padding
  check_padding-done l m g ptr w geo readable = elim (ℕ_discrete g.pad 0) [
    | yes e ↦ (w, rw (geo, check_padding) (rw ((==_iff g.pad 0).1 e) refl), λ x o. refl)
    | no n ↦
        let (w', e, kept) = scan_padding-done g.pad (ptr + max l.size 1) w readable in
        (w', rw (geo, check_padding) (rw (==_false g.pad 0 n) e), kept)
  ]

  scan_padding-faulted :
      (n addr : ℕ) (w : os.World)
      → 0 < n
      → access addr w ≡ sealed
      → scan_padding os page n addr w ≡ faulted
  unfolding scan_padding
  scan_padding-faulted zero addr w h s = absurd (omega arith)
  scan_padding-faulted (suc n) addr w h s = rw (sys.read_sealed addr w s, scan_padding) refl

  module _ {k : ℕ} {a : Arena} {w : os.World} (v : IsFenced os sys k a w) (l : Layout) (m : Mode)
      (g : Geometry) (f : Fences l page m g) (geo : geometry_for l m page ≡ some g) (ptr i : ℕ)
      (t : Tracks a.slots a.cap ptr i) (laid : IsLaid (a.slots i) g) where
    whole : IsWhole page (a.slots i)
    whole = v.guarded.whole i t.0 t.1

    padding-promised :
        (j : ℕ)
        → j < g.pad
        → access (ptr + max l.size 1 + j) w ≡ promised page (a.slots i) (ptr + max l.size 1 + j)
    padding-promised j h = v.guarded.fenced _ i (
      t.0,
      t.1,
      subst (λ p. covers (a.slots i) (p + max l.size 1 + j) ≡ true) t.2
          (padding_covered page l m g f (a.slots i) whole laid j h),
    )

    padding-writable :
        (a.slots i).state ≡ ready
        → (j : ℕ) → j < g.pad
        → access (ptr + max l.size 1 + j) w ≡ writable
    padding-writable s j h = padding-promised j h ∙ rw (s, open_byte) refl
      where
        open_byte : in_guard page (a.slots i) (ptr + max l.size 1 + j) ≡ false
        open_byte =
            subst (λ p. in_guard page (a.slots i) (p + max l.size 1 + j) ≡ false) t.2
              (padding_unguarded page l m g f (a.slots i) whole laid j h)

    padding-sealed :
        (a.slots i).state ≡ freed → (j : ℕ) → j < g.pad → access (ptr + max l.size 1 + j) w ≡ sealed
    padding-sealed s j h = padding-promised j h ∙ rw s refl

    -- On a freed region it faults, if there is any padding.
    check_padding-freed :
        (a.slots i).state ≡ freed
        → check_padding os page ptr l m w ≡ (if g.pad == 0 then done w else faulted)
    unfolding check_padding scan_padding
    check_padding-freed s = elim (ℕ_discrete g.pad 0) [
      | yes e ↦ rw (geo, check_padding) (rw ((==_iff g.pad 0).1 e) refl)
      | no n ↦
          rw (geo, check_padding)
            (rw (==_false g.pad 0 n) (
              scan_padding-faulted g.pad _ w (omega arith) (
                subst (λ x. access x w ≡ sealed) (omega arith) (padding-sealed s 0 (omega arith)))))
    ]

    -- The padding of a live region can be read to its end.
    pub check_padding-ready :
        (a.slots i).state ≡ ready → (u : os.World) × (check_padding os page ptr l m w ≡ done u)
    check_padding-ready s =
        let (u, e, kept) =
          check_padding-done l m g ptr w geo
            (λ j h. sys.read_writable _ w (padding-writable s j h)) in
        (u, e)

    -- A live pointer with its layout is freed once its padding is checked: the region is sealed, and
    -- all regions stay guarded.
    pub coffin_dealloc-ready :
        (a.slots i).state ≡ ready
        → ((u : os.World)
            → check_padding os page ptr l m w ≡ done u
            → (os.mprotect_none (a.slots i).base g.map_len u).0 ≡ true)
        → (u : os.World) × (check_padding os page ptr l m w ≡ done u)
          × (coffin_dealloc os m page ptr l a w
              ≡ done ((free os ptr g.map_len a u).1, (free os ptr g.map_len a u).2))
          × IsFenced os sys k (free os ptr g.map_len a u).1 (free os ptr g.map_len a u).2
    unfolding coffin_dealloc
    coffin_dealloc-ready s ok =
        let (u, e, kept) =
          check_padding-done l m g ptr w geo
            (λ j h. sys.read_writable _ w (padding-writable s j h)) in
        let fenced : IsFenced os sys k a u = record {
          valid = v.valid;
          guarded = world-IsGuarded os sys v.guarded u kept;
        } in
        (
          u,
          e,
          rw (e, coffin_dealloc)
              (rw (geo, coffin_dealloc)
                (settle-true ptr l m _
                  (ap (λ r. r.0) (free-ready os v.valid ptr g.map_len u i t s)))),
          free-IsFenced os sys fenced ptr i g.map_len t s laid.0 (ok u e),
        )

    pub coffin_dealloc-IsFenced :
        (a.slots i).state ≡ ready
        → ((u : os.World)
            → check_padding os page ptr l m w ≡ done u
            → (os.mprotect_none (a.slots i).base g.map_len u).0 ≡ true)
        → (b : Arena) × (w' : os.World) × (coffin_dealloc os m page ptr l a w ≡ done (b, w'))
          × IsFenced os sys k b w'
    coffin_dealloc-IsFenced s ok =
        let (u, e, ran, fenced) = coffin_dealloc-ready s ok in (_, _, ran, fenced)

    -- Where every tracked region is guarded: a pointer that the table has as freed, given back again
    -- with the layout of its region, gets the message of a double free and nothing else changes, if the
    -- layout has no padding; with padding the check of the padding faults first.
    pub coffin_dealloc-freed :
        (a.slots i).state ≡ freed
        → coffin_dealloc os m page ptr l a w ≡ (
            if g.pad == 0
            then done (a, os.write_stderr "coffin: double free detected\n" w)
            else faulted)
    unfolding coffin_dealloc settle
    coffin_dealloc-freed s = elim (Bool-cases (g.pad == 0)) [
      | inl e ↦
          rw (check_padding-freed s, coffin_dealloc)
            (rw (e, coffin_dealloc)
              (rw (geo, coffin_dealloc) (rw (free-freed os v.valid ptr g.map_len w i t s) refl)))
      | inr e ↦ rw (check_padding-freed s, coffin_dealloc) (rw e refl)
    ]

  -- A pointer that is not tracked, with readable padding, goes to the system allocator.
  pub coffin_dealloc-fallback :
      {k : ℕ} {a : Arena} {w : os.World}
      → IsFenced os sys k a w
      → (l : Layout) (m : Mode) (g : Geometry) → geometry_for l m page ≡ some g
      → (ptr : ℕ) → IsFresh a.slots a.cap ptr
      → ((j : ℕ) → j < g.pad → IsReadable (ptr + max l.size 1 + j) w)
      → (w' : os.World) × (coffin_dealloc os m page ptr l a w ≡ done (a, w'))
        × IsFenced os sys k a w'
  unfolding coffin_dealloc settle
  coffin_dealloc-fallback {k} {a} {w} v l m g geo ptr fresh readable =
      let (u, e, kept) = check_padding-done l m g ptr w geo readable in
      (
        os.system_dealloc ptr l.size l.align u,
        rw (e, coffin_dealloc)
            (rw (geo, coffin_dealloc) (rw (free-absent os v.valid ptr g.map_len u fresh) refl)),
        record {
          valid = v.valid;
          guarded =
              world-IsGuarded os sys v.guarded _
                (Keeps-trans os sys kept (sys.system_dealloc_access ptr l.size l.align u));
        },
      )
