-- ===== src/Allocator/Threads/First.antt =====
-- The first steps of the calls: a region is mapped, or a padding is checked.
use coffin.Prelude.{
  ℕ, zero, suc, ◌+◌, ◌^◌, ◌≡◌, refl, ◌∙◌, true, false, none, some, inl, inr, update, Bool-cases,
  Option-cases, ◌==◌,
}
use mathlib.Core.Path.{subst}
use coffin.Config.{Mode}
use coffin.Platform.{Platform}
use coffin.Platform.Laws.{IsSystem}
use coffin.Region.{Layout, Geometry, geometry_for, poison}
use coffin.Region.Bounds.{Fences}
use coffin.Region.Map.{Run, done, map_region, check_padding, scan_padding}
use coffin.Allocator.{Guard}
use coffin.Allocator.Guarded.{Holds-is_ours, world-IsGuarded}
use coffin.Allocator.Guarded.Map.{
  Keeps, mapped_access-ours, map_region-access, map_region-cases, ours_outside,
}
use coffin.Allocator.Threads.{Phase, mapped, Team}
use coffin.Allocator.Threads.Regions.{
  flies, IsLaidOut, IsSoundTeam, flies-is_ours, moved-IsSoundTeam,
}

module _ (os : Platform) (m : Mode) (page_exp : ℕ) (sys : IsSystem os (2 ^ page_exp)) (k : ℕ) where
  open sys use {access}

  Keeps-as :
      {w w' w'' : os.World}
      → ◌≡◌ {A = Run os.World} (done w') (done w'')
      → Keeps os sys w w'
      → Keeps os sys w w''
  Keeps-as {w} e kept = subst (λ u. Keeps os sys w u) (cc e) kept

  -- The scan changes no access, wherever it stops.
  scan_padding-Keeps :
      (n addr : ℕ) (w w' : os.World)
      → scan_padding os (2 ^ page_exp) n addr w ≡ done w'
      → Keeps os sys w w'
  unfolding scan_padding
  scan_padding-Keeps zero addr w w' e = Keeps-as e (λ x o. refl)
  scan_padding-Keeps (suc n) addr w w' e = elim (Option-cases (os.read_byte addr w)) [
    | inl fault ↦ cc (rw (fault, scan_padding) at e)
    | inr (b, byte) ↦ elim (Bool-cases (b == poison)) [
      | inl same ↦ scan_padding-Keeps n (addr + 1) w w' (rw same at (rw (byte, scan_padding) at e))
      | inr other ↦
          Keeps-as (rw other at (rw (byte, scan_padding) at e))
            (λ x o. sys.write_stderr_access _ w x)
    ]
  ]

  pub check_padding-Keeps :
      (ptr : ℕ) (l : Layout) (g : Geometry) (w w' : os.World)
      → geometry_for l m (2 ^ page_exp) ≡ some g
      → check_padding os (2 ^ page_exp) ptr l m w ≡ done w'
      → Keeps os sys w w'
  unfolding check_padding
  check_padding-Keeps ptr l g w w' geo e = elim (Bool-cases (g.pad == 0)) [
    | inl none_left ↦ Keeps-as (rw none_left at (rw (geo, check_padding) at e)) (λ x o. refl)
    | inr some_left ↦
        scan_padding-Keeps g.pad _ w w' (rw some_left at (rw (geo, check_padding) at e))
  ]

  -- One thread moves on without changing the arena, and no address of the program changes its access.
  pub kept-IsSoundTeam :
      {t : Team os} (v : IsSoundTeam os sys m k t)
      → (i : ℕ) (guard : ℕ → Guard) (p : Phase) (w : os.World) → Keeps os sys t.world w
      → IsLaidOut os sys m k p
      → ((addr : ℕ) → flies p addr ≡ false)
      → IsSoundTeam os sys m k
          (record { guard = guard; phase = update t.phase i p; arena = t.arena; world = w })
  kept-IsSoundTeam {t} v i guard p w kept laid grounded =
      moved-IsSoundTeam os sys m k v i guard p t.arena w
        (record {
          valid = v.fenced.valid;
          guarded = world-IsGuarded os sys v.fenced.guarded w kept;
        })
        laid (λ addr h. cc (grounded addr, h))
        (λ j addr n h.
          (kept addr (flies-is_ours os sys m k v j addr h), λ q. v.untracked j addr q h))

  map_region-eq_some :
      (l : Layout) (g : Geometry) (w : os.World) (base : ℕ)
      → (os.mmap g.map_len w).0 ≡ some base
      → (os.mprotect_none (base + g.guard_off) (2 ^ page_exp) (os.mmap g.map_len w).1).0 ≡ true
      → (map_region os (2 ^ page_exp) l g w).0 ≡ some (base, base + g.user_off)
  unfolding map_region
  map_region-eq_some l g w base at s = rw (at, map_region) (rw (s, map_region) refl)

  pub map-IsSoundTeam :
      {t : Team os} (v : IsSoundTeam os sys m k t)
      → (i : ℕ) (guard : ℕ → Guard) (l : Layout) (g : Geometry) → Fences l (2 ^ page_exp) m g
      → IsSoundTeam os sys m k (record {
        guard = guard;
        phase = update t.phase i (mapped l g (map_region os (2 ^ page_exp) l g t.world).0);
        arena = t.arena;
        world = (map_region os (2 ^ page_exp) l g t.world).1;
      })
  map-IsSoundTeam {t} v i guard l g f = elim (map_region-cases os sys l m g f t.world) [
    | inl (e, kept) ↦ rw e (kept-IsSoundTeam v i guard (mapped l g none) _ kept f (λ addr. refl))
    | inr (base, at, s) ↦
        let out = ours_outside os sys l m g f t.world base at in
        let kept : Keeps os sys t.world (map_region os (2 ^ page_exp) l g t.world).1 = λ addr o.
          map_region-access os sys l m g f t.world base at s addr
          ∙ mapped_access-ours os sys l m g f t.world base at addr o in
        rw (map_region-eq_some l g t.world base at s) (
          moved-IsSoundTeam os sys m k v i guard (mapped l g (some (base, base + g.user_off)))
            t.arena (map_region os (2 ^ page_exp) l g t.world).1
            (record {
              valid = v.fenced.valid;
              guarded = world-IsGuarded os sys v.fenced.guarded _ kept;
            })
            (
              f,
              refl,
              sys.mmap_whole g.map_len base t.world at,
              sys.mmap_inside g.map_len base t.world at,
            )
            (λ addr h. (
              map_region-access os sys l m g f t.world base at s addr ∙ rw h refl,
              λ n q. cc (out addr (Holds-is_ours os sys v.fenced.guarded addr n q), h),
              λ j ne h'. cc (out addr (flies-is_ours os sys m k v j addr h'), h),
            ))
            (λ j addr n h.
              (kept addr (flies-is_ours os sys m k v j addr h), λ q. v.untracked j addr q h)))
  ]
