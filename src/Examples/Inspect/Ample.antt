-- ===== src/Examples/Inspect/Ample.antt =====
-- A system that serves as many mappings as a program asks for.
use coffin.Prelude.{
  ℕ, suc, ◌%◌, ◌^◌, ◌∙◌, refl, arith, if◌then◌else◌, ◌+◌, ◌*◌, ◌<◌, ◌≡◌, true, some, inl, inr,
  Bool-cases, Option-cases, ◌==◌,
}
use native.Mathlib.Nat.{mod_self}
use coffin.Platform.Laws.{sealed, writable, is_ours, within, IsSystem}
use coffin.Region.Bounds.{Fences}
use coffin.Region.Multiples.{sum-mod}
use coffin.Allocator.Guarded.Map.{map_region-access}
use coffin.Region.{Layout, Geometry}
use coffin.Region.Map.{map_region}
use coffin.Registry.{Arena, is_freed, find_locked, free, seal, quarantine_push, evict}
use coffin.Examples.{Setup, page_size}

-- `Plenty n w`: in the world `w` the system can serve `n` more mappings of two pages or a little
-- more. A mapping uses one of them up, and no other call takes any; `mprotect` of whole pages that the
-- program has mapped does not fail there. For Linux this is a bound on the pages of the process, which
-- is below the number of mappings that it may have.
pub record IsAmple (s : Setup) (sys : IsSystem s.os (2 ^ s.page_exp))
    (Plenty : ℕ → s.os.World → Type 0) : Type 0 where
  pub serves :
      (n len : ℕ) (w : s.os.World)
      → 0 < len
      → len < 128 + 2 * page_size s
      → Plenty (suc n) w
      → (base : ℕ) × ((s.os.mmap len w).0 ≡ some base) × Plenty n (s.os.mmap len w).1
  pub seals :
      (n base len : ℕ) (w : s.os.World)
      → Plenty n w
      → base % page_size s ≡ 0
      → len % page_size s ≡ 0
      → ((addr : ℕ) → within base len addr ≡ true → is_ours (sys.access addr w) ≡ true)
      → (s.os.mprotect_none base len w).0 ≡ true
  pub mprotect :
      (n base len : ℕ) (w : s.os.World) → Plenty n w → Plenty n (s.os.mprotect_none base len w).1
  pub munmap : (n base len : ℕ) (w : s.os.World) → Plenty n w → Plenty n (s.os.munmap base len w)
  pub write_bytes :
      (n ptr byte len : ℕ) (w : s.os.World)
      → Plenty n w
      → Plenty n (s.os.write_bytes ptr byte len w)

module _ (s : Setup) (sys : IsSystem s.os (2 ^ s.page_exp)) (Plenty : ℕ → s.os.World → Type 0)
    (ample : IsAmple s sys Plenty) where
  open s use {os, mode}

  -- The guard page of a new mapping is sealed.
  guard_seals :
      (n : ℕ) (l : Layout) (g : Geometry) (w : os.World)
      → Fences l (page_size s) mode g
      → (base : ℕ) → (os.mmap g.map_len w).0 ≡ some base
      → Plenty n (os.mmap g.map_len w).1
      → (os.mprotect_none (base + g.guard_off) (page_size s) (os.mmap g.map_len w).1).0 ≡ true
  guard_seals n l g w f base at q =
      ample.seals n (base + g.guard_off) (page_size s) (os.mmap g.map_len w).1 q
        (sum-mod base g.guard_off (page_size s) (sys.mmap_whole g.map_len base w at) f.guard_whole)
        (mod_self (page_size s))
        (λ addr h.
          rw (sys.mmap_writable g.map_len base w at addr (ground (arith, h, f.guard_inside))) refl)

  -- The whole of a new region, its guard page included, can be sealed afterwards.
  pub region_seals :
      (n : ℕ) (l : Layout) (g : Geometry) (w : os.World) (f : Fences l (page_size s) mode g)
      → (base : ℕ) (at : (os.mmap g.map_len w).0 ≡ some base)
      → (os.mprotect_none (base + g.guard_off) (page_size s) (os.mmap g.map_len w).1).0 ≡ true
      → (w₂ : os.World)
      → ((x : ℕ) → sys.access x w₂ ≡ sys.access x (map_region os (page_size s) l g w).1)
      → Plenty n w₂
      → (os.mprotect_none base g.map_len w₂).0 ≡ true
  region_seals n l g w f base at sealing w₂ same q =
      ample.seals n base g.map_len w₂ q (sys.mmap_whole g.map_len base w at) f.map_whole (λ addr h.
        let e : sys.access addr w₂
            ≡ (if within (base + g.guard_off) (page_size s) addr then sealed else writable) =
          same addr ∙ map_region-access os sys l mode g f w base at sealing addr ∙ rw h refl in
        rw e (ground arith))

  -- A region without padding takes one mapping.
  pub map_region-Plenty :
      (n : ℕ) (l : Layout) (g : Geometry) (w : os.World)
      → Fences l (page_size s) mode g
      → g.map_len < 128 + 2 * page_size s
      → g.pad ≡ 0
      → Plenty (suc n) w
      → (base : ℕ) × ((os.mmap g.map_len w).0 ≡ some base)
        × ((os.mprotect_none (base + g.guard_off) (page_size s) (os.mmap g.map_len w).1).0 ≡ true)
        × Plenty n (map_region os (page_size s) l g w).1
  unfolding map_region
  map_region-Plenty n l g w f small unpadded p =
      let (base, at, q) = ample.serves n g.map_len w (omega (arith, f.roomy)) small p in
      let sealed = guard_seals n l g w f base at q in
      (
        base,
        at,
        sealed,
        rw (at, map_region)
            (rw (sealed, unpadded)
              (ample.mprotect n (base + g.guard_off) (page_size s) (os.mmap g.map_len w).1 q)),
      )

  push-Plenty :
      (n idx : ℕ) (b : Arena) (w : os.World) → Plenty n w → Plenty n (quarantine_push os idx b w).1
  unfolding quarantine_push evict
  push-Plenty n idx b w p = elim (Bool-cases (b.q_len == b.q_cap)) [
    | inl e ↦ rw (e, quarantine_push) (ample.munmap n _ _ w p)
    | inr e ↦ rw (e, quarantine_push) p
  ]

  -- A release takes none.
  pub free-Plenty :
      (n ptr len : ℕ) (b : Arena) (w : os.World) → Plenty n w → Plenty n (free os ptr len b w).2
  unfolding free seal
  free-Plenty n ptr len b w p = elim (Option-cases (find_locked b ptr)) [
    | inl e ↦ rw (e, free) p
    | inr (idx, e) ↦ elim (Bool-cases (is_freed (b.slots idx).state)) [
      | inl f ↦ rw (e, free) (rw f p)
      | inr f ↦
          rw (e, free)
            (rw f (
              push-Plenty n idx (seal os idx len b w).0 (seal os idx len b w).1
                (ample.mprotect n (b.slots idx).base len w p)))
    ]
  ]
