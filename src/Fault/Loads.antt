-- ===== src/Fault/Loads.antt =====
-- src/registry.rs, `classify` without a lock, load by load: every load of a field sees the table as
-- it is at that moment, whatever the writers did since the load before.
pub mod Steps
pub mod Torn
pub mod Steady
pub mod Sealing
pub mod Tests
use coffin.Prelude.{
  ℕ, zero, suc, ◌+◌, ◌≤◌, ◌<◌, ◌≡◌, refl, sym, ap, ◌∙◌, Bool, true, false, ◌&&◌, ◌⊎◌, inl, inr,
  arith, Bool-cases, ltb, leb, if◌then◌else◌, wrapping_add,
}
use coffin.Registry.{SlotState, is_vacant, Region, Arena}
use coffin.Fault.{FaultInfo, nowhere, kind_of, covers, info_of, scan, classify}
use coffin.Fault.Scan.{Holds}

-- The slot at each moment, and what the loads from the moment `t` on make of it: the state, the
-- base and the length are loaded first, and the other four fields if the address is inside.
abbrev pub loaded : (ℕ → Region) → SlotState → ℕ → Region
loaded slot st t = record (slot t) {
  state = st;
  base = (slot (t + 1)).base;
  total_len = (slot (t + 2)).total_len;
  user_ptr = (slot (t + 3)).user_ptr;
  guard_addr = (slot (t + 4)).guard_addr;
  size = (slot (t + 5)).size;
  align = (slot (t + 6)).align;
}

-- The loop of `classify`, with the rounds left, the index and the moment.
unfoldable pub scan_loads : ℕ → (ℕ → ℕ → Region) → ℕ → ℕ → ℕ → ℕ → FaultInfo
unfolding info_of
scan_loads page table addr zero idx t = nowhere
scan_loads page table addr (suc n) idx t =
    let skipped = scan_loads page table addr n (idx + 1) (t + 1) in
    let missed = scan_loads page table addr n (idx + 1) (t + 3) in
    let r = loaded (λ u. table u idx) (table t idx).state t in
    if is_vacant r.state
    then skipped
    else if covers r addr
    then info_of page (λ _. r) addr idx
    else missed

unfoldable pub classify_loads : ℕ → (ℕ → ℕ → Region) → ℕ → ℕ → FaultInfo
unfolding scan_loads
classify_loads page table cap addr = scan_loads page table addr cap 0 0

scan_loads-still :
    (page addr : ℕ) (slots : ℕ → Region) (n idx t : ℕ)
    → scan_loads page (λ _. slots) addr n idx t ≡ scan page slots addr n idx
unfolding scan_loads scan info_of kind_of
scan_loads-still page addr slots zero idx t = refl
scan_loads-still page addr slots (suc n) idx t = ground (
  arith,
  scan_loads-still page addr slots n (idx + 1) (t + 1),
  scan_loads-still page addr slots n (idx + 1) (t + 3),
)

-- While no writer changes the table, the scan load by load is `classify`.
pub classify_loads-still :
    (page addr : ℕ) (a : Arena)
    → classify_loads page (λ _. a.slots) a.cap addr ≡ classify page a addr
unfolding classify_loads classify
classify_loads-still page addr a = scan_loads-still page addr a.slots a.cap 0 0
