-- ===== src/Fault/Reported.antt =====
-- src/registry.rs, `classify`: what it reports, against ranges of addresses that are numbers.
use coffin.Prelude.{
  ℕ, ◌+◌, ◌≤◌, ◌<◌, ◌≡◌, refl, sym, ap, true, false, ◌⊎◌, inl, inr, arith, word, Bool-cases, leb,
}
use mathlib.Core.Path.{subst}
use coffin.Registry.{SlotState, empty, ready, freed, tomb, is_vacant, Region, Arena}
use coffin.Fault.{
  FaultKind, overflow, underflow, use_after_free, live_region, wild, FaultInfo, covers, in_guard,
  kind_of, info_of, classify,
}
use coffin.Fault.Scan.{outcome}

-- A slot with a region.
abbrev pub IsTracked : Region → Type 0
IsTracked r = (r.state ≡ ready) ⊎ (r.state ≡ freed)

-- The region of the slot has the address.
abbrev pub IsAt : Region → ℕ → Type 0
IsAt r addr = (r.base ≤ addr) × (addr < r.base + r.total_len)

-- What a fault at an address of a region is: after the release, any address; before it, one of the guard
-- page behind the buffer, one of the guard page before it, or one outside the guard page.
pub data IsKind (page : ℕ) (r : Region) (addr : ℕ) : FaultKind → Type 0 where
  after_free : r.state ≡ freed → IsKind page r addr use_after_free
  past_end :
      r.state ≡ ready
      → r.user_ptr ≤ r.guard_addr
      → r.guard_addr ≤ addr
      → addr < r.guard_addr + page
      → IsKind page r addr overflow
  before_start :
      r.state ≡ ready
      → r.guard_addr < r.user_ptr
      → r.guard_addr ≤ addr
      → addr < r.guard_addr + page
      → IsKind page r addr underflow
  inside :
      r.state ≡ ready
      → (addr < r.guard_addr) ⊎ (r.guard_addr + page ≤ addr)
      → IsKind page r addr live_region

-- A report of the slot `i` that holds `r`.
pub record IsReport (page : ℕ) (r : Region) (addr i : ℕ) (found : FaultInfo) : Type 0 where
  pub kind : IsKind page r addr found.kind
  pub slot : found.slot ≡ i
  pub base : found.base ≡ r.base
  pub total_len : found.total_len ≡ r.total_len
  pub user_ptr : found.user_ptr ≡ r.user_ptr
  pub size : found.size ≡ r.size
  pub align : found.align ≡ r.align

-- The region and the guard page of a slot end inside the address space.
pub record IsInSpace (page : ℕ) (r : Region) : Type 0 where
  pub region : r.base + r.total_len < word
  pub guard : r.guard_addr + page < word

tracked_state : (s : SlotState) → is_vacant s ≡ false → (s ≡ ready) ⊎ (s ≡ freed)
tracked_state ready v = inl refl
tracked_state freed v = inr refl
tracked_state empty v = ground arith
tracked_state tomb v = ground arith

-- The tests of the code on one slot.
module _ (page : ℕ) (r : Region) (addr : ℕ) (space : IsInSpace page r) where
  covers-IsAt : covers r addr ≡ true → IsAt r addr
  covers-IsAt c = ground (arith, c, space.region)

  IsAt-covers : IsAt r addr → covers r addr ≡ true
  IsAt-covers h = ground (arith, h, space.region)

  kind_of-IsKind : IsTracked r → IsKind page r addr (kind_of page r addr)
  unfolding kind_of
  kind_of-IsKind (inr e) = simp (kind_of, e) (after_free e)
  kind_of-IsKind (inl e) = elim (Bool-cases (in_guard page r addr)) [
    | inr out ↦ simp (kind_of, e, out) (inside e (ground (arith, out, space.guard)))
    | inl hit ↦ elim (Bool-cases (leb r.user_ptr r.guard_addr)) [
      | inl le ↦
          simp (kind_of, e, hit, le)
            (past_end e (ground arith) (ground arith) (ground (arith, space.guard)))
      | inr gt ↦
          simp (kind_of, e, hit, gt)
            (before_start e (ground arith) (ground arith) (ground (arith, space.guard)))
    ]
  ]

IsTracked-nonvacant : (r : Region) → IsTracked r → is_vacant r.state ≡ false
IsTracked-nonvacant r (inl e) = ap is_vacant e
IsTracked-nonvacant r (inr e) = ap is_vacant e

-- If the regions and the guard pages of all tracked slots end inside the address space, `classify`
-- reports the first tracked slot whose region has the address, with all fields of that slot: as a use
-- after free if it is FREED; if it is READY, as an overflow on a guard page at or behind the start of the
-- buffer, as an underflow on a guard page before it, and as a live region elsewhere. It says WILD, of
-- slot `usize::MAX`, only if no tracked region has the address.
pub classify-IsReport :
    (page : ℕ) (a : Arena) (addr : ℕ)
    → ((i : ℕ) → i < a.cap → IsTracked (a.slots i) → IsInSpace page (a.slots i))
    → ((i : ℕ) × (i < a.cap)
        × IsTracked (a.slots i)
        × IsAt (a.slots i) addr
        × IsReport page (a.slots i) addr i (classify page a addr)
        × ((j : ℕ) → j < i → IsTracked (a.slots j) → ¬ IsAt (a.slots j) addr))
      ⊎ (((classify page a addr).kind ≡ wild)
          × ((classify page a addr).slot + 1 ≡ word)
          × ((i : ℕ) → i < a.cap → IsTracked (a.slots i) → ¬ IsAt (a.slots i) addr))
unfolding info_of
classify-IsReport page a addr space = elim (outcome page a addr) [
  | inl (e, none_at) ↦ inr (
    ap (λ (f : FaultInfo). f.kind) e,
    ap (λ (f : FaultInfo). f.slot + 1) e,
    λ i lt t at. none_at i (omega arith) (
      lt,
      IsTracked-nonvacant (a.slots i) t,
      IsAt-covers page (a.slots i) addr (space i lt t) at,
    ),
  )
  | inr (i, e, (lt, v, c), first) ↦
      let t = tracked_state (a.slots i).state v in
      let sp = space i lt t in
      inl (
        i,
        lt,
        t,
        covers-IsAt page (a.slots i) addr sp c,
        subst (IsReport page (a.slots i) addr i) (sym e) (record {
          kind = kind_of-IsKind page (a.slots i) addr sp t;
          slot = refl;
          base = refl;
          total_len = refl;
          user_ptr = refl;
          size = refl;
          align = refl;
        }),
        λ j less q at. first j (omega arith) less (
          omega (arith, lt, less),
          IsTracked-nonvacant (a.slots j) q,
          IsAt-covers page (a.slots j) addr (space j (omega (arith, lt, less)) q) at,
        ),
      )
]
