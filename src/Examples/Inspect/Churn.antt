-- ===== src/Examples/Inspect/Churn.antt =====
-- The rounds of inspect.rs.
use coffin.Prelude.{
  ℕ, zero, suc, ◌+◌, ◌*◌, ◌≤◌, ◌<◌, ◌≡◌, refl, Bool, true, ◌&&◌, some, List, Option, arith, word,
  ltb, leb, wrapping_add, wrapping_sub,
}
use Prim.Native.String.{String}
use coffin.Config.{quarantine_cap}
use coffin.Region.{Geometry, geometry_for}
use coffin.Region.Bounds.{IsRequest, Fences, Fences-of}
use coffin.Region.Map.{map_region}
use coffin.Registry.{Arena}
use coffin.Allocator.Guarded.Alloc.{IsFenced}
use coffin.Inspect.{eviction_count, quarantine_len}
use coffin.Examples.{Setup, page_size, returned}
use coffin.Examples.Memory.{IsKernel, task}
use coffin.Examples.Once.{no_padding, once}
use coffin.Examples.Inspect.{round_layout, churn, quarantine_check}
use coffin.Examples.Inspect.Ample.{IsAmple, map_region-Plenty, free-Plenty, region_seals}

module _ (s : Setup) (shadowed : Bool) (kernel : IsKernel s) (Plenty : ℕ → s.os.World → Type 0)
    (ample : IsAmple s kernel.sys Plenty) where
  open s use {os, mode, page_exp, quarantine}
  open kernel use {sys}

  module _ (g : Geometry) (geo : geometry_for round_layout mode (page_size s) ≡ some g)
      (three : 3 ≤ page_exp) (small : page_exp ≤ 32) where
    round-IsRequest : IsRequest round_layout 3 page_exp
    round-IsRequest = record {
      aligned = refl;
      within_page = three;
      page_small = small;
      size_small = omega arith;
    }

    round-Fences : Fences round_layout (page_size s) mode g
    round-Fences = Fences-of round_layout 3 page_exp mode g round-IsRequest geo

    round_small : g.map_len < 128 + 2 * page_size s
    round_small = omega (arith, round-Fences.tight)

    round_unpadded : g.pad ≡ 0
    round_unpadded = no_padding round_layout mode (page_size s) g round-Fences refl

    -- Every round ends, and evicts one region once the quarantine is full.
    churn-done :
        (n : ℕ) {k : ℕ} {a : Arena} {w : os.World}
        → IsFenced os sys k a w
        → Plenty n w
        → a.live + a.q_cap < a.cap
        → a.q_len + a.evictions + n < word
        → (ps : List (Option String))
        → (c : Arena) × (w' : os.World) × (churn s shadowed n (task s a ps w)
            ≡ returned tt (task s c ps w'))
          × (c.q_len ≤ a.q_cap)
          × (c.q_len + c.evictions ≡ a.q_len + a.evictions + n)
    unfolding churn
    churn-done zero {a = a} {w = w} v p room few ps = (a, w, refl, v.valid.ring.len_in, omega arith)
    churn-done (suc n) {a = a} {w = w} v p room few ps =
        let (base, at, sealing, q) =
          map_region-Plenty s sys Plenty ample n round_layout g w round-Fences round_small
            round_unpadded p in
        let w₁ = (map_region os (page_size s) round_layout g w).1 in
        let o =
          once s kernel round_layout g 3 round-IsRequest geo round_unpadded v base at sealing
            (omega (arith, v.valid.ring.len_in)) w₁
            (region_seals s sys Plenty ample n round_layout g w round-Fences base at sealing w₁
              (λ x. refl) q)
            (λ x. refl) in
        let counts = o.counts (omega arith) in
        let (c, w', ran, len, sum) =
          churn-done n o.fenced
            (free-Plenty s sys Plenty ample n (base + g.user_off) g.map_len o.between w₁ q)
            (omega (arith, counts)) (omega (arith, counts)) ps in
        (
          c,
          w',
          rw (o.allocated ps, churn) (rw o.nonnull (rw (o.released ps) ran)),
          omega (arith, counts, len),
          omega (arith, counts, sum),
        )

    -- What the last three assertions come to.
    asserted :
        (a c : Arena) (cap rounds : ℕ)
        → cap + 100 < word
        → rounds ≡ wrapping_add cap 100
        → c.q_len ≤ cap
        → a.q_len + a.evictions + (cap + 100) < word
        → c.q_len + c.evictions ≡ a.q_len + a.evictions + (cap + 100)
        → let evicted = wrapping_sub (eviction_count c) (eviction_count a) in
          (ltb 0 evicted && leb (wrapping_sub rounds cap) evicted && leb (quarantine_len c) cap)
          ≡ true
    asserted a c cap rounds small e len few sum = ground arith

    pub quarantine_check-done :
        {k : ℕ} {a : Arena} {w : os.World}
        → IsFenced os sys k a w
        → a.q_cap ≡ quarantine_cap quarantine
        → Plenty (a.q_cap + 100) w
        → a.live + a.q_cap < a.cap
        → a.q_len + a.evictions + (a.q_cap + 100) < word
        → (ps : List (Option String))
        → (c : Arena) × (w' : os.World) × (quarantine_check s shadowed (task s a ps w)
            ≡ returned tt (task s c ps w'))
    unfolding quarantine_check
    quarantine_check-done {a = a} {w = w} v cap p room few ps =
        let (c, w', ran, len, sum) = churn-done (a.q_cap + 100) v p room few ps in
        let rounds : wrapping_add a.q_cap 100 ≡ a.q_cap + 100 = omega (arith, few) in
        (
          c,
          w',
          rw (← cap, quarantine_check)
              (rw rounds (
                rw ran (
                  rw
                    (asserted a c a.q_cap (a.q_cap + 100) (omega (arith, few)) (omega (arith, few))
                      len few sum)
                    refl))),
        )
