-- ===== src/Allocator/Tests.antt =====
-- One allocation on an arena of four slots.
use coffin.Prelude.{◌≡◌, refl, arith, ℕ, ◌%◌}
use coffin.Config.{above}
use coffin.Samples.{host, small, small_geometry}
use coffin.Region.Tests.{geometry_for-small, small-IsRequest}
use coffin.Region.Map.{done, map_region}
use coffin.Registry.{Arena, new}
use coffin.Registry.Invariant.{new-IsValid}
use coffin.Fault.{overflow, classify}
use coffin.Allocator.Detect.{report_of, coffin_alloc-detects}
use coffin.Fault.Scan.{IsApart}
use coffin.Allocator.{coffin_alloc}
use coffin.Allocator.Fenced.{Serves, Allocated, coffin_alloc-Allocated}

abbrev start : Arena
start = new 4 1

start-IsApart : IsApart start.slots 4
start-IsApart = record { apart = λ addr i j h h'. cc (h.1) }

start-Serves : Serves host 4096 small_geometry start 0x10000 0x10000
start-Serves = record {
  mapped = refl;
  sealed = refl;
  whole = refl;
  inside = omega arith;
  apart = λ addr i h lo hi. cc (h.1);
  fresh = λ i h s. cc s;
}

coffin_alloc-Allocated_test :
    (b : Arena) × (coffin_alloc host above 4096 small start 0x10000
      ≡ done (0x10ff0, b, (map_region host 4096 small small_geometry 0x10000).1))
    × Allocated 2 small small_geometry 0x10000 b
coffin_alloc-Allocated_test =
    coffin_alloc-Allocated host above 4096 2 0x10000 small small_geometry start 0x10000
      (new-IsValid 2 1 (omega arith) (omega arith) (omega arith)) start-IsApart start-Serves
      geometry_for-small (omega arith)

-- The first byte of the guard page.
coffin_alloc-detects_test :
    (b : Arena) × (slot : ℕ) × (coffin_alloc host above 4096 small start 0x10000
      ≡ done (0x10ff0, b, (map_region host 4096 small small_geometry 0x10000).1))
    × (0x10ff0 % 4 ≡ 0)
    × (classify 4096 b 0x11000 ≡ report_of overflow slot small small_geometry 0x10000)
coffin_alloc-detects_test =
    coffin_alloc-detects host above 2 0x10000 2 12 0x11000 small small_geometry start 0x10000
      (new-IsValid 2 1 (omega arith) (omega arith) (omega arith)) start-IsApart start-Serves
      small-IsRequest geometry_for-small (omega arith) (omega arith) (omega arith)
