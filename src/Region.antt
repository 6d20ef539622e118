-- ===== src/Region.antt =====
-- src/region.rs: the layout of one fenced mapping.
pub mod Bounds
pub mod Cases
pub mod Map
pub mod Multiples
pub mod Tests
use coffin.Prelude.{
  ℕ, ◌-◌, ◌≤◌, Option, none, some, leb, if◌then◌else◌, wrapping_add, wrapping_sub, complement,
  bit_and,
}
use Prim.Native.Nat.{max}
use coffin.Config.{Mode, above, below}

abbrev pub poison : ℕ
poison = 0xDB

-- `(x + to - 1) & !(to - 1)`, in `usize`
unfoldable pub round_up : ℕ → ℕ → ℕ
round_up x to = bit_and (wrapping_sub (wrapping_add x to) 1) (complement (to - 1))

-- `x & !(to - 1)`
unfoldable pub align_down : ℕ → ℕ → ℕ
align_down x to = bit_and x (complement (to - 1))

-- `std::alloc::Layout`
pub record Layout : Type 0 where
  pub size : ℕ
  pub align : ℕ

-- `Geometry`
pub record Geometry : Type 0 where
  pub map_len : ℕ
  pub guard_off : ℕ
  pub user_off : ℕ
  pub pad : ℕ

-- The two branches of `geometry_for`, for a request of `size` bytes in `data_bytes` bytes of pages.
unfoldable pub place : ℕ → ℕ → ℕ → ℕ → Mode → Geometry
place size align page data_bytes above =
    let user_off = align_down (wrapping_sub data_bytes size) align in
    record {
      map_len = wrapping_add data_bytes page;
      guard_off = data_bytes;
      user_off = user_off;
      pad = wrapping_sub (wrapping_sub data_bytes user_off) size;
    }
place size align page data_bytes below = record {
  map_len = wrapping_add page data_bytes;
  guard_off = 0;
  user_off = page;
  pad = 0;
}

-- `geometry_for`; `none` is the failed assertion on an over-aligned request.
unfoldable pub geometry_for : Layout → Mode → ℕ → Option Geometry
unfolding place
geometry_for l mode page =
    let size = max l.size 1 in
    if leb l.align page then some (place size l.align page (round_up size page) mode) else none
