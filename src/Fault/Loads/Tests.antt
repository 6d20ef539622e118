-- ===== src/Fault/Loads/Tests.antt =====
-- Lookups load by load around one tracked region.
use coffin.Prelude.{ℕ, ◌≡◌, ◌≢◌, refl, [], ◌∷◌, arith, update}
use coffin.Registry.{Arena, new}
use coffin.Fault.{wild, live_region, overflow, info_of, kind_of, classify, scan}
use coffin.Fault.Tests.{region, arena, arena-IsApart}
use coffin.Fault.Loads.{classify_loads, classify_loads-still, scan_loads}
use coffin.Fault.Loads.Torn.{switched, classify_loads-torn}
use coffin.Fault.Loads.Sealing.{table, classify_loads-sealing}

-- Slot 2 after it was freed, evicted and taken again.
abbrev reused : Arena
reused = record (new 4 1) {
  slots = update (new 4 1).slots 2 (record region {
    base = 0x40000;
    user_ptr = 0x40fe0;
    size = 32;
    align = 32;
    guard_addr = 0x41000;
  });
}

classify_loads-still_test :
    classify_loads 4096 (λ _. arena.slots) 4 0x11000 ≡ classify 4096 arena 0x11000
classify_loads-still_test = classify_loads-still 4096 0x11000 arena

classify_loads-torn_example :
    (moment : ℕ) × (let fi = classify_loads 4096 (switched arena reused moment) 4 0x11000 in
      (fi.slot ≡ 2)
      × (fi.base ≡ 0x10000)
      × (fi.total_len ≡ 8192)
      × (fi.user_ptr ≡ 0x40fe0)
      × (fi.size ≡ 32)
      × (fi.align ≡ 32)
      × (fi.kind ≢ wild))
classify_loads-torn_example =
    classify_loads-torn 4096 0x11000 arena reused 2 arena-IsApart (omega arith, refl, refl)

-- The guard page of the old region is told as the inside of a live one, with a pointer and a size that
-- were never in it; neither arena says so.
torn_test : (classify_loads 4096 (switched arena reused 4) 4 0x11000).kind ≡ live_region
unfolding classify_loads scan_loads kind_of info_of
torn_test = refl

before_test : (classify 4096 arena 0x11000).kind ≡ overflow
unfolding classify scan
before_test = refl

after_test : (classify 4096 reused 0x11000).kind ≡ wild
unfolding classify scan
after_test = refl

-- At the moment u, u stores are made.
classify_loads-sealing_example :
    (u : ℕ) × (classify_loads 4096 (table arena 2 (1 ∷ []) (λ n. n)) 4 0x11000
      ≡ info_of 4096 (table arena 2 (1 ∷ []) (λ n. n) u) 0x11000 2)
classify_loads-sealing_example =
    classify_loads-sealing arena 2 (1 ∷ []) 4096 0x11000 arena-IsApart (omega arith, refl, refl)
      (λ n. n)
