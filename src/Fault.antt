-- ===== src/Fault.antt =====
-- src/registry.rs, the reader's side: `classify`, the scan that the signal handler makes, and
-- `read_ips`. A reader takes no lock; here it reads an arena that no writer is changing.
pub mod Scan
pub mod Reported
pub mod Apart
pub mod Freed
pub mod Loads
pub mod Tests
use coffin.Prelude.{
  ℕ, zero, suc, ◌+◌, ◌-◌, Bool, true, false, ◌&&◌, List, replicate, ltb, leb, if◌then◌else◌, word,
  wrapping_add,
}
use coffin.Registry.{
  SlotState, empty, ready, freed, tomb, is_freed, is_vacant, Region, Arena, ip_depth,
}

-- `FaultKind`
pub data FaultKind : Type 0 where
  overflow underflow use_after_free live_region wild : FaultKind

-- `FaultInfo`
pub record FaultInfo : Type 0 where
  pub kind : FaultKind
  pub slot : ℕ
  pub base : ℕ
  pub total_len : ℕ
  pub user_ptr : ℕ
  pub size : ℕ
  pub align : ℕ

-- `addr >= base && addr < base + total`
abbrev pub covers : Region → ℕ → Bool
covers r addr = leb r.base addr && ltb addr (wrapping_add r.base r.total_len)

-- `addr >= guard && addr < guard + page`
abbrev pub in_guard : ℕ → Region → ℕ → Bool
in_guard page r addr = leb r.guard_addr addr && ltb addr (wrapping_add r.guard_addr page)

unfoldable pub kind_of : ℕ → Region → ℕ → FaultKind
kind_of page r addr =
    if is_freed r.state
    then use_after_free
    else if in_guard page r addr
    then (if leb r.user_ptr r.guard_addr then overflow else underflow)
    else live_region

unfoldable pub info_of : ℕ → (ℕ → Region) → ℕ → ℕ → FaultInfo
unfolding kind_of
info_of page slots addr idx =
    let r = slots idx in
    record {
      kind = kind_of page r addr;
      slot = idx;
      base = r.base;
      total_len = r.total_len;
      user_ptr = r.user_ptr;
      size = r.size;
      align = r.align;
    }

-- No region: the slot is `usize::MAX`.
abbrev pub nowhere : FaultInfo
nowhere = record {
  kind = wild;
  slot = word - 1;
  base = 0;
  total_len = 0;
  user_ptr = 0;
  size = 0;
  align = 0;
}

-- The loop of `classify`, with the rounds left and the index.
unfoldable pub scan : ℕ → (ℕ → Region) → ℕ → ℕ → ℕ → FaultInfo
unfolding info_of
scan page slots addr zero idx = nowhere
scan page slots addr (suc n) idx =
    let rest = scan page slots addr n (idx + 1) in
    let r = slots idx in
    if is_vacant r.state then rest else if covers r addr then info_of page slots addr idx else rest

unfoldable pub classify : ℕ → Arena → ℕ → FaultInfo
unfolding scan
classify page a addr = scan page a.slots addr a.cap 0

unfoldable pub read_ips : Arena → ℕ → Bool → List ℕ
read_ips a idx free =
    if leb a.cap idx
    then replicate ip_depth 0
    else if free
    then (a.slots idx).free_ips
    else (a.slots idx).alloc_ips
