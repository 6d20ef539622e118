-- ===== src/Allocator/Guarded/Map.antt =====
-- What `map_region` does to the access of each address.
use coffin.Prelude.{
  ℕ, ◌+◌, ◌%◌, ◌≤◌, ◌≡◌, refl, ◌∙◌, true, false, none, some, ◌⊎◌, inl, inr, arith, Bool-cases,
  Option-cases, ltb, if◌then◌else◌, Bool,
}
use Prim.Native.Nat.{max}
use coffin.Config.{Mode}
use coffin.Platform.{Platform}
use coffin.Platform.Laws.{Access, writable, sealed, is_ours, within, IsSystem}
use coffin.Region.{Layout, Geometry, poison}
use coffin.Region.Bounds.{Fences}
use coffin.Region.Multiples.{sum-mod}
use coffin.Region.Map.{map_region}
use native.Mathlib.Nat.{mod_self}

within-inner :
    (base off len n addr : ℕ)
    → off + n ≤ len
    → within base len addr ≡ false
    → within (base + off) n addr ≡ false
within-inner base off len n addr h e = ground arith

within-outer :
    (base off len n addr : ℕ)
    → off + n ≤ len
    → within (base + off) n addr ≡ true
    → within base len addr ≡ true
within-outer base off len n addr h e = ground arith

module _ (os : Platform) {page : ℕ} (sys : IsSystem os page) where
  open sys use {access}

  -- The program's own addresses keep their access.
  abbrev pub Keeps : os.World → os.World → Type 0
  Keeps w w' = (addr : ℕ) → is_ours (access addr w) ≡ true → access addr w' ≡ access addr w

  pub Keeps-trans : {u v x : os.World} → Keeps u v → Keeps v x → Keeps u x
  Keeps-trans p q addr o = q addr (rw (p addr o) o) ∙ p addr o

  module _ (l : Layout) (m : Mode) (g : Geometry) (f : Fences l page m g) (w : os.World) where
    abbrev mapped_world : os.World
    mapped_world = (os.mmap g.map_len w).1

    module _ (base : ℕ) (at : (os.mmap g.map_len w).0 ≡ some base) where
      abbrev sealing : Bool × os.World
      sealing = os.mprotect_none (base + g.guard_off) page mapped_world

      guard_whole : (base + g.guard_off) % page ≡ 0
      guard_whole = sum-mod base g.guard_off page (sys.mmap_whole _ base w at) f.guard_whole

      -- Outside the mapping nothing changes, up to the seal of the guard page.
      sealed_outside :
          (addr : ℕ) → within base g.map_len addr ≡ false → access addr sealing.1 ≡ access addr w
      sealed_outside addr h =
          sys.mprotect_outside (base + g.guard_off) page mapped_world guard_whole (mod_self page)
            addr (within-inner base g.guard_off g.map_len page addr f.guard_inside h)
          ∙ sys.mmap_outside g.map_len base w f.map_whole at addr h

      pub ours_outside :
          (addr : ℕ) → is_ours (access addr w) ≡ true → within base g.map_len addr ≡ false
      ours_outside addr o = elim (Bool-cases (within base g.map_len addr)) [
        | inl i ↦ cc (sys.mmap_new g.map_len base w at addr i, o)
        | inr i ↦ i
      ]

      undone-Keeps : Keeps w (os.munmap base g.map_len sealing.1)
      undone-Keeps addr o =
          sys.munmap_outside base g.map_len _ (sys.mmap_whole _ base w at) f.map_whole addr
            (ours_outside addr o)
          ∙ sealed_outside addr (ours_outside addr o)

      -- The access behind a served request.
      abbrev pub mapped_access : ℕ → Access
      mapped_access addr =
          if within (base + g.guard_off) page addr
          then sealed
          else if within base g.map_len addr
          then writable
          else access addr w

      pub mapped_access-ours :
          (addr : ℕ) → is_ours (access addr w) ≡ true → mapped_access addr ≡ access addr w
      mapped_access-ours addr o =
          let out = ours_outside addr o in
          let inner = within-inner base g.guard_off g.map_len page addr f.guard_inside out in
          rw (out, inner) refl

      sealed_inside : sealing.0 ≡ true → (addr : ℕ) → access addr sealing.1 ≡ mapped_access addr
      sealed_inside s addr = elim (Bool-cases (within (base + g.guard_off) page addr)) [
        | inl i ↦ rw i (
            sys.mprotect_sealed (base + g.guard_off) page mapped_world guard_whole (mod_self page) s
              addr i
              (rw
                (sys.mmap_writable g.map_len base w at addr
                  (within-outer base g.guard_off g.map_len page addr f.guard_inside i))
                refl))
        | inr i ↦ rw i (
            sys.mprotect_outside (base + g.guard_off) page mapped_world guard_whole (mod_self page)
              addr i
            ∙ mapped addr)
      ]
        where
          mapped :
              (addr : ℕ)
              → access addr mapped_world
                ≡ (if within base g.map_len addr then writable else access addr w)
          mapped addr = elim (Bool-cases (within base g.map_len addr)) [
            | inl i ↦ rw i (sys.mmap_writable g.map_len base w at addr i)
            | inr i ↦ rw i (sys.mmap_outside g.map_len base w f.map_whole at addr i)
          ]

      pub map_region-access :
          sealing.0 ≡ true
          → (addr : ℕ) → access addr (map_region os page l g w).1 ≡ mapped_access addr
      unfolding map_region
      map_region-access s addr = rw (at, map_region) (rw (s, map_region) poisoned)
        where
          padding : os.World
          padding = os.write_bytes (base + g.user_off + max l.size 1) poison g.pad sealing.1

          poisoned : access addr (if ltb 0 g.pad then padding else sealing.1) ≡ mapped_access addr
          poisoned = elim (Bool-cases (ltb 0 g.pad)) [
            | inl e ↦ rw e (
                sys.write_bytes_access (base + g.user_off + max l.size 1) poison g.pad sealing.1
                  addr
                ∙ sealed_inside s addr)
            | inr e ↦ rw e (sealed_inside s addr)
          ]

    -- `map_region` returns no region and leaves the program's own addresses alone, or it returns one.
    pub map_region-cases :
        ((map_region os page l g w).0 ≡ none) × Keeps w (map_region os page l g w).1
        ⊎ ((base : ℕ) × ((os.mmap g.map_len w).0 ≡ some base)
            × ((os.mprotect_none (base + g.guard_off) page mapped_world).0 ≡ true))
    unfolding map_region
    map_region-cases = elim (Option-cases (os.mmap g.map_len w).0) [
      | inl e ↦ inl (
        rw (e, map_region) refl,
        λ addr o. rw (e, map_region) (sys.mmap_failed g.map_len w e addr),
      )
      | inr (base, at) ↦
          elim (Bool-cases (os.mprotect_none (base + g.guard_off) page mapped_world).0) [
            | inl s ↦ inr (base, at, s)
            | inr s ↦ inl (
              rw (at, map_region) (rw (s, map_region) refl),
              rw (at, map_region) (rw (s, map_region) (undone-Keeps base at)),
            )
          ]
    ]
