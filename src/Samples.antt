-- ===== src/Samples.antt =====
-- A small system, and requests, on which the tests run the program.
pub mod Machine
use coffin.Prelude.{ℕ, ◌+◌, true, some, [], ◌∷◌}
use coffin.Platform.{Platform}
use coffin.Region.{Layout, Geometry, poison}
use coffin.Registry.{Entry}

-- A system that never fails and hands out memory upwards; its state is the next free address.
abbrev pub host : Platform
host = record {
  World = ℕ;
  mmap = λ n w. (some w, w + n);
  mprotect_none = λ addr n w. (true, w);
  munmap = λ addr n w. w;
  write_bytes = λ addr byte n w. w;
  read_byte = λ addr w. some poison;
  trace = λ w. 0x1111 ∷ 0x2222 ∷ [];
  system_alloc = λ size align w. (0x9000_0000, w);
  system_dealloc = λ ptr size align w. w;
  write_stderr = λ message w. w;
}

-- 13 bytes, aligned to 4, in pages of 4096.
abbrev pub small : Layout
small = record { size = 13; align = 4 }

abbrev pub small_geometry : Geometry
small_geometry = record { map_len = 8192; guard_off = 4096; user_off = 4080; pad = 3 }

-- A region of two pages at an address, with a buffer of 16 bytes in front of its guard page.
abbrev pub entry_at : ℕ → Entry
entry_at base = record {
  base = base;
  total_len = 8192;
  user_ptr = base + 4080;
  size = 16;
  align = 16;
  guard_addr = base + 4096;
}
