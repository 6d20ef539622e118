-- ===== src/Registry/Publish/Looks.antt =====
-- Stores that a lock-free lookup cannot tell from none.
use coffin.Prelude.{
  ℕ, zero, suc, ◌+◌, ◌≡◌, refl, sym, ap, ◌∙◌, true, Option, none, some, List, inl, inr, arith,
  if◌then◌else◌, update, update_self, update_ne, Bool-cases,
}
use coffin.Registry.{
  SlotState, is_vacant, Region, Arena, home, next, find_from, find_locked, state_of,
}
use coffin.Registry.Lookup.{find_from-update_same}
use coffin.Registry.Publish.{store_slot}
use native.Mathlib.Decide.{ℕ_discrete}
use coffin.Fault.{FaultInfo, scan, classify, info_of, kind_of, covers}

-- What the two lock-free lookups say of the arenas `a` and `b` is the same.
abbrev pub LooksLike : Arena → Arena → Type 0
LooksLike a b =
    ((page addr : ℕ) → classify page a addr ≡ classify page b addr)
    × ((ptr : ℕ) → state_of a ptr ≡ state_of b ptr)

-- One round of the scan.
abbrev look : ℕ → ℕ → ℕ → Region → FaultInfo → FaultInfo
unfolding info_of
look page addr idx r rest =
    if is_vacant r.state
    then rest
    else if covers r addr
    then info_of page (λ _. r) addr idx
    else rest

look-vacant :
    (page addr idx : ℕ) (r : Region) (rest : FaultInfo)
    → is_vacant r.state ≡ true
    → look page addr idx r rest ≡ rest
unfolding look
look-vacant page addr idx r rest e = rw e refl

scan-look :
    (page addr : ℕ) (slots : ℕ → Region) (n idx : ℕ)
    → scan page slots addr (suc n) idx
      ≡ look page addr idx (slots idx) (scan page slots addr n (idx + 1))
unfolding scan info_of look
scan-look page addr slots n idx = refl

-- A store after which the scan makes the same of the slot.
scan-update_same :
    (page addr : ℕ) (slots : ℕ → Region) (i : ℕ) (r : Region)
    → ((idx : ℕ) (rest : FaultInfo) → look page addr idx r rest ≡ look page addr idx (slots i) rest)
    → (n idx : ℕ) → scan page (update slots i r) addr n idx ≡ scan page slots addr n idx
unfolding scan
scan-update_same page addr slots i r h zero idx = refl
scan-update_same page addr slots i r h (suc n) idx =
    let after = update slots i r in
    let rest = scan page slots addr n (idx + 1) in
    scan-look page addr after n idx
    ∙ ap (look page addr idx (after idx)) (scan-update_same page addr slots i r h n (idx + 1))
    ∙ elim (ℕ_discrete i idx) [
      | yes e ↦
          ap (λ q. look page addr idx q rest) (update_self slots r e)
          ∙ h idx rest
          ∙ ap (λ k. look page addr idx (slots k) rest) e
      | no ne ↦ ap (λ q. look page addr idx q rest) (update_ne slots r ne)
    ]
    ∙ sym (scan-look page addr slots n idx)

find_from-update_vacant :
    (ptr mask i : ℕ) (slots : ℕ → Region) (r : Region)
    → is_vacant (slots i).state ≡ true
    → r.state ≡ (slots i).state
    → (n idx : ℕ) → find_from (update slots i r) mask ptr n idx ≡ find_from slots mask ptr n idx
unfolding find_from
find_from-update_vacant ptr mask i slots r old new zero idx = refl
find_from-update_vacant ptr mask i slots r old new (suc n) idx =
    ground (arith, find_from-update_vacant ptr mask i slots r old new n (next mask idx))

found_state :
    (s t : ℕ → Region)
    → ((j : ℕ) → (s j).state ≡ (t j).state)
    → (o : Option ℕ)
    → elim o as (λ _. Option SlotState) [ none ↦ none | some j ↦ some (s j).state ]
      ≡ elim o as (λ _. Option SlotState) [ none ↦ none | some j ↦ some (t j).state ]
found_state s t h none = refl
found_state s t h (some j) = ap some (h j)

module _ (a : Arena) (i : ℕ) (r : Region) where
  LooksLike-store :
      ((page addr idx : ℕ) (rest : FaultInfo)
        → look page addr idx r rest ≡ look page addr idx (a.slots i) rest)
      → ((ptr : ℕ) → find_locked (record a { slots = update a.slots i r }) ptr ≡ find_locked a ptr)
      → r.state ≡ (a.slots i).state
      → LooksLike (record a { slots = update a.slots i r }) a
  unfolding classify state_of
  LooksLike-store looks finds same = (
    λ page addr. scan-update_same page addr a.slots i r (looks page addr) a.cap 0,
    λ ptr.
        rw (state_of, finds ptr)
          (found_state (update a.slots i r) a.slots (λ j. ground arith) (find_locked a ptr)),
  )

  -- The slot stays EMPTY or TOMB.
  pub LooksLike-vacant :
      is_vacant (a.slots i).state ≡ true
      → r.state ≡ (a.slots i).state
      → LooksLike (record a { slots = update a.slots i r }) a
  unfolding find_locked
  LooksLike-vacant old same =
      LooksLike-store
        (λ page addr idx rest.
          look-vacant page addr idx r rest (ap is_vacant same ∙ old)
          ∙ sym (look-vacant page addr idx (a.slots i) rest old))
        (λ ptr. find_from-update_vacant ptr a.mask i a.slots r old same a.cap (home a.mask ptr))
        same

pub LooksLike-trans : (a b c : Arena) → LooksLike a b → LooksLike b c → LooksLike a c
LooksLike-trans a b c (p, q) (p', q') =
    (λ page addr. p page addr ∙ p' page addr, λ ptr. q ptr ∙ q' ptr)

pub LooksLike-refl : (a : Arena) → LooksLike a a
LooksLike-refl a = (λ page addr. refl, λ ptr. refl)

pub LooksLike-live : (a : Arena) (n : ℕ) → LooksLike a (record a { live = n })
unfolding classify state_of find_locked
LooksLike-live a n = (λ page addr. refl, λ ptr. refl)

-- No lookup reads the stack that `free` captures.
pub LooksLike-free_ips :
    (a : Arena) (i : ℕ) (ips : List ℕ)
    → LooksLike (store_slot i (λ r. record r { free_ips = ips }) a) a
unfolding look kind_of find_locked
LooksLike-free_ips a i ips =
    let r = record (a.slots i) { free_ips = ips } in
    LooksLike-store a i r (λ page addr idx rest. refl)
      (λ ptr. elim (Bool-cases (is_vacant (a.slots i).state)) [
        | inl old ↦ find_from-update_vacant ptr a.mask i a.slots r old refl a.cap (home a.mask ptr)
        | inr old ↦
            find_from-update_same a.slots a.mask i r old old refl ptr a.cap (home a.mask ptr)
      ])
      refl
