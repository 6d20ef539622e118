-- ===== src/Registry/Lookup.antt =====
-- Lookups after a store into one slot, and the invariant by which every tracked slot is found.
use coffin.Prelude.{
  ℕ, zero, suc, ◌<◌, ◌≡◌, ◌≢◌, ◌↔◌, refl, sym, ◌∙◌, false, Option, none, some, inl, inr, arith,
  Option-cases, update, update_self, update_ne,
}
use mathlib.Core.Path.{subst}
use native.Mathlib.Decide.{ℕ_discrete}
use coffin.Registry.{empty, ready, tomb, is_vacant, Region, home, next, find_vacant, find_from}
use coffin.Registry.Probe.{IsTable, home-lt, next-lt, find_from-some}

module _ (slots : ℕ → Region) (mask i : ℕ) (r : Region) where
  -- A store that leaves the key alone and the slot tracked changes no lookup.
  pub find_from-update_same :
      is_vacant (slots i).state ≡ false
      → is_vacant r.state ≡ false
      → r.user_ptr ≡ (slots i).user_ptr
      → (ptr n start : ℕ)
      → find_from (update slots i r) mask ptr n start ≡ find_from slots mask ptr n start
  unfolding find_from
  find_from-update_same old new key ptr zero start = refl
  find_from-update_same old new key ptr (suc n) start =
      ground (arith, find_from-update_same old new key ptr n (next mask start))

  -- A store that leaves no EMPTY slot and no second slot of the key keeps a lookup.
  pub find_from-update_ne :
      r.state ≢ empty
      → (ptr : ℕ) → (is_vacant r.state ≡ false → r.user_ptr ≢ ptr)
      → (j : ℕ) → i ≢ j
      → (n start : ℕ) → find_from slots mask ptr n start ≡ some j
      → find_from (update slots i r) mask ptr n start ≡ some j
  unfolding find_from
  find_from-update_ne kept ptr other j ne zero start e = e
  find_from-update_ne kept ptr other j ne (suc n) start e =
      ground (arith, find_from-update_ne kept ptr other j ne n (next mask start))

-- A key that no slot has is found where `insert` puts it.
find_from-update_self :
    (slots : ℕ → Region) (cap mask i : ℕ) (r : Region) {k : ℕ}
    → IsTable k cap mask
    → is_vacant r.state ≡ false
    → ((j : ℕ) → j < cap → is_vacant (slots j).state ≡ false → (slots j).user_ptr ≢ r.user_ptr)
    → (n start : ℕ) → start < cap
    → find_vacant slots mask n start ≡ some i
    → find_from (update slots i r) mask r.user_ptr n start ≡ some i
unfolding find_vacant find_from
find_from-update_self slots cap mask i r t new fresh zero start h e = cc
find_from-update_self slots cap mask i r t new fresh (suc n) start h e = ground (
  arith,
  fresh start h,
  next-lt t start h,
  find_from-update_self slots cap mask i r t new fresh n (next mask start),
)

-- Every tracked slot is the one that a lookup of its key finds: no probe chain is broken, and no key
-- is tracked twice.
pub record IsIndexed (k : ℕ) (slots : ℕ → Region) (cap mask : ℕ) : Type 0 where
  pub table : IsTable k cap mask
  pub found :
      (i : ℕ)
      → i < cap
      → is_vacant (slots i).state ≡ false
      → find_from slots mask (slots i).user_ptr cap (home mask (slots i).user_ptr) ≡ some i

-- The slot at an index is tracked under the key.
abbrev pub Tracks : (ℕ → Region) → ℕ → ℕ → ℕ → Type 0
Tracks slots cap ptr i =
    (i < cap) × (is_vacant (slots i).state ≡ false) × ((slots i).user_ptr ≡ ptr)

-- No slot is tracked under the key.
abbrev pub IsFresh : (ℕ → Region) → ℕ → ℕ → Type 0
IsFresh slots cap ptr =
    (i : ℕ) → i < cap → is_vacant (slots i).state ≡ false → (slots i).user_ptr ≢ ptr

module _ {k : ℕ} {slots : ℕ → Region} {cap mask : ℕ} (v : IsIndexed k slots cap mask) where
  -- On an indexed table, a lookup of a key returns a slot exactly if that slot is tracked under the
  -- key.
  pub find_from_iff :
      (ptr i : ℕ) → (find_from slots mask ptr cap (home mask ptr) ≡ some i) ↔ Tracks slots cap ptr i
  find_from_iff ptr i = (
    find_from-some v.table slots ptr cap (home mask ptr) (home-lt v.table ptr),
    λ t. rw (← t.2) (v.found i t.0 t.1),
  )

  pub Tracks-unique : (ptr i j : ℕ) → Tracks slots cap ptr i → Tracks slots cap ptr j → i ≡ j
  Tracks-unique ptr i j s t = cc ((find_from_iff ptr i).1 s, (find_from_iff ptr j).1 t)

  pub find_from-none_iff :
      (ptr : ℕ) → (find_from slots mask ptr cap (home mask ptr) ≡ none) ↔ IsFresh slots cap ptr
  find_from-none_iff ptr = (
    λ e i h s key. cc ((find_from_iff ptr i).1 (h, s, key)),
    λ fresh. elim (Option-cases (find_from slots mask ptr cap (home mask ptr))) [
      | inl e ↦ e
      | inr (i, e) ↦ let t = (find_from_iff ptr i).0 e in absurd (fresh i t.0 t.1 t.2)
    ],
  )

  abbrev lookup : (ℕ → Region) → ℕ → Option ℕ
  lookup s ptr = find_from s mask ptr cap (home mask ptr)

  update-IsIndexed :
      (i : ℕ) (r : Region)
      → (i < cap → is_vacant r.state ≡ false → lookup (update slots i r) r.user_ptr ≡ some i)
      → ((j : ℕ)
          → j < cap
          → i ≢ j
          → is_vacant (slots j).state ≡ false
          → lookup (update slots i r) (slots j).user_ptr ≡ some j)
      → IsIndexed k (update slots i r) cap mask
  update-IsIndexed i r here there = record { table = v.table; found = found }
    where
      at :
          (j : ℕ)
          → j < cap
          → (q : Region) → update slots i r j ≡ q
          → (is_vacant q.state ≡ false → lookup (update slots i r) q.user_ptr ≡ some j)
          → is_vacant (update slots i r j).state ≡ false
          → lookup (update slots i r) (update slots i r j).user_ptr ≡ some j
      at j h q e found s =
          subst
            (λ (q : Region).
              is_vacant q.state ≡ false → lookup (update slots i r) q.user_ptr ≡ some j)
            (sym e) found s

      found :
          (j : ℕ)
          → j < cap
          → is_vacant (update slots i r j).state ≡ false
          → lookup (update slots i r) (update slots i r j).user_ptr ≡ some j
      found j h = elim (ℕ_discrete i j) [
        | yes p ↦ at j h r (update_self slots r p) (λ s. rw (here (rw p h) s, p))
        | no p ↦ at j h (slots j) (update_ne slots r p) (there j h p)
      ]

  -- `insert` into the vacant slot that its probe comes to first.
  pub publish-IsIndexed :
      (i : ℕ) (r : Region)
      → r.state ≡ ready
      → IsFresh slots cap r.user_ptr
      → find_vacant slots mask cap (home mask r.user_ptr) ≡ some i
      → IsIndexed k (update slots i r) cap mask
  publish-IsIndexed i r new fresh e =
      update-IsIndexed i r
        (λ h s.
          find_from-update_self slots cap mask i r v.table s fresh cap _
            (home-lt v.table r.user_ptr) e)
        (λ j h ne s.
          find_from-update_ne slots mask i r (λ q. cc (new, q)) _ (λ _ q. fresh j h s (sym q)) j ne
            cap _ (v.found j h s))

  -- A change of state between READY and FREED.
  pub restate-IsIndexed :
      (i : ℕ) (r : Region)
      → is_vacant (slots i).state ≡ false
      → is_vacant r.state ≡ false
      → r.user_ptr ≡ (slots i).user_ptr
      → IsIndexed k (update slots i r) cap mask
  restate-IsIndexed i r old new key =
      update-IsIndexed i r (λ h s. same r.user_ptr ∙ rw key (v.found i h old))
        (λ j h ne s. same (slots j).user_ptr ∙ v.found j h s)
    where
      same : (ptr : ℕ) → lookup (update slots i r) ptr ≡ lookup slots ptr
      same ptr = find_from-update_same slots mask i r old new key ptr cap (home mask ptr)

  -- A change to TOMB.
  pub bury-IsIndexed :
      (i : ℕ) (r : Region) → r.state ≡ tomb → IsIndexed k (update slots i r) cap mask
  bury-IsIndexed i r new =
      update-IsIndexed i r (λ h s. cc (new, s))
        (λ j h ne s.
          find_from-update_ne slots mask i r (λ q. cc (new, q)) _ (λ q. cc (new, q)) j ne cap _
            (v.found j h s))
