-- ===== src/Samples/Machine.antt =====
-- A small machine with pages of 4096 bytes, as a system that keeps the laws: it hands out addresses
-- upwards, each mapping far from the next, and never reuses one.
use coffin.Prelude.{
  ℕ, ◌+◌, ◌*◌, ◌%◌, ◌≤◌, ◌<◌, ◌≡◌, refl, true, ◌&&◌, Option, none, some, [], ◌∷◌, arith, ltb,
  if◌then◌else◌, word,
}
use coffin.Region.{poison}
use coffin.Platform.{Platform}
use coffin.Platform.Laws.{Access, absent, foreign, writable, sealed, is_ours, within, IsSystem}

pub record Machine : Type 0 where
  pub access : ℕ → Access
  pub top : ℕ
  pub positive : 0 < top
  pub whole : top % 4096 ≡ 0
  pub clear : (addr : ℕ) → top ≤ addr → access addr ≡ absent

pub mapped-clear :
    (m : Machine) (n addr : ℕ)
    → m.top + n * 4096 ≤ addr
    → (if within m.top n addr then writable else m.access addr) ≡ absent
mapped-clear m n addr h = ground (arith, m.clear addr)

pub mapped-positive : (m : Machine) (n : ℕ) → 0 < m.top + n * 4096
mapped-positive m n = omega (arith, m.positive)

pub mapped-whole : (m : Machine) (n : ℕ) → (m.top + n * 4096) % 4096 ≡ 0
mapped-whole m n = omega (arith, m.whole)

abbrev pub mapped : ℕ → Machine → Machine
mapped n m = record {
  access = λ addr. if within m.top n addr then writable else m.access addr;
  top = m.top + n * 4096;
  positive = mapped-positive m n;
  whole = mapped-whole m n;
  clear = mapped-clear m n;
}

-- The program's own addresses in a range get another access.
pub changed-clear :
    (m : Machine) (to : Access) (base n addr : ℕ)
    → m.top ≤ addr
    → (if within base n addr && is_ours (m.access addr) then to else m.access addr) ≡ absent
changed-clear m to base n addr h = rw (m.clear addr h) (ground arith)

abbrev pub changed : Access → ℕ → ℕ → Machine → Machine
changed to base n m = record m {
  access = λ addr. if within base n addr && is_ours (m.access addr) then to else m.access addr;
  clear = changed-clear m to base n;
}

abbrev pub read : Access → Option ℕ
read writable = some poison
read foreign = some 0
read _ = none

abbrev pub machine : Platform
machine = record {
  World = Machine;
  mmap = λ n m. if ltb (m.top + n * 4096) word then (some m.top, mapped n m) else (none, m);
  mprotect_none = λ base n m. (true, changed sealed base n m);
  munmap = λ base n m. changed absent base n m;
  write_bytes = λ addr byte n m. m;
  read_byte = λ addr m. read (m.access addr);
  trace = λ m. 0x1111 ∷ 0x2222 ∷ [];
  system_alloc = λ size align m. (0x9000_0000, m);
  system_dealloc = λ ptr size align m. m;
  write_stderr = λ message m. m;
}

abbrev pub fresh_machine : Machine
fresh_machine = record {
  access = λ addr. absent;
  top = 0x10000;
  positive = omega arith;
  whole = refl;
  clear = λ addr h. refl;
}

pub machine-IsSystem : IsSystem machine 4096
machine-IsSystem = record {
  access = λ addr m. m.access addr;
  mmap_whole = λ n base m e. ground (arith, m.whole);
  mmap_inside = λ n base m e. ground arith;
  mmap_new = λ n base m e addr h. ground (arith, m.clear addr);
  mmap_writable = λ n base m e addr h. ground arith;
  mmap_outside = λ n base m pages e addr h. ground arith;
  mmap_failed = λ n m e addr. ground arith;
  mprotect_sealed = λ base n m hb hn e addr i o. ground arith;
  mprotect_outside = λ base n m hb hn addr i. ground arith;
  munmap_outside = λ base n m hb hn addr i. ground arith;
  write_bytes_access = λ base byte n m addr. refl;
  write_stderr_access = λ message m addr. refl;
  system_alloc_access = λ size align m addr o. refl;
  system_dealloc_access = λ ptr size align m addr o. refl;
  read_writable = λ addr m e. (poison, rw e refl);
  read_sealed = λ addr m e. rw e refl;
}

pub machine_access : (addr : ℕ) (m : Machine) → m.access addr ≡ machine-IsSystem.access addr m
unfolding machine-IsSystem
machine_access addr m = refl
