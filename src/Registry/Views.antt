-- ===== src/Registry/Views.antt =====
-- What a reader sees of each key, and how a store into one slot changes that.
use coffin.Prelude.{
  ℕ, ◌<◌, ◌≡◌, ◌≢◌, refl, sym, ap, ◌∙◌, true, false, Option, none, some, ◌⊎◌, inl, inr, arith,
  Option-cases, update, update_self, update_ne, ◌==◌, ==_iff, ==_false, if◌then◌else◌,
}
use mathlib.Core.Path.{subst}
use native.Mathlib.Decide.{ℕ_discrete}
use coffin.Registry.{SlotState, is_vacant, Region, home, find_from}
use coffin.Registry.Lookup.{
  IsIndexed, Tracks, IsFresh, find_from_iff, find_from-none_iff, Tracks-unique,
}

-- `state_of` on the parts of the arena that it reads.
abbrev pub state_at : (ℕ → Region) → ℕ → ℕ → ℕ → Option SlotState
state_at slots cap mask ptr = elim (find_from slots mask ptr cap (home mask ptr)) [
  | none ↦ none
  | some i ↦ some (slots i).state
]

module _ {k : ℕ} {slots : ℕ → Region} {cap mask : ℕ} (v : IsIndexed k slots cap mask) where
  pub state_at-some :
      (ptr i : ℕ) → Tracks slots cap ptr i → state_at slots cap mask ptr ≡ some (slots i).state
  state_at-some ptr i t = rw ((find_from_iff v ptr i).1 t, state_at)

  pub state_at-none : (ptr : ℕ) → IsFresh slots cap ptr → state_at slots cap mask ptr ≡ none
  state_at-none ptr f = rw ((find_from-none_iff v ptr).1 f, state_at)

  -- A key is tracked in some slot, or in none.
  pub Tracks-cases : (ptr : ℕ) → IsFresh slots cap ptr ⊎ ((i : ℕ) × Tracks slots cap ptr i)
  Tracks-cases ptr = elim (Option-cases (find_from slots mask ptr cap (home mask ptr))) [
    | inl e ↦ inl ((find_from-none_iff v ptr).0 e)
    | inr (i, e) ↦ inr (i, (find_from_iff v ptr i).0 e)
  ]

  pub IsFresh-of : (ptr : ℕ) → state_at slots cap mask ptr ≡ none → IsFresh slots cap ptr
  IsFresh-of ptr e = elim (Tracks-cases ptr) [
    | inl f ↦ f
    | inr (i, t) ↦ cc (e, state_at-some ptr i t)
  ]

module _ {k : ℕ} {slots : ℕ → Region} {cap mask : ℕ} (v : IsIndexed k slots cap mask) (i : ℕ)
    (r : Region) (w : IsIndexed k (update slots i r) cap mask) where
  -- The key of the slot, if the store leaves it tracked.
  pub state-update_self :
      i < cap
      → is_vacant r.state ≡ false
      → state_at (update slots i r) cap mask r.user_ptr ≡ some r.state
  state-update_self h s =
      state_at-some w r.user_ptr i (h, ground arith, ground arith)
      ∙ ap (λ (q : Region). some q.state) (update_self slots r refl)

  -- A key that the slot has neither before nor after.
  pub state-update_other :
      (ptr : ℕ)
      → (is_vacant (slots i).state ≡ false → (slots i).user_ptr ≢ ptr)
      → (is_vacant r.state ≡ false → r.user_ptr ≢ ptr)
      → state_at (update slots i r) cap mask ptr ≡ state_at slots cap mask ptr
  state-update_other ptr was is = elim (Tracks-cases v ptr) [
    | inl f ↦ state_at-none w ptr (λ j h. ground (arith, f j h)) ∙ sym (state_at-none v ptr f)
    | inr (j, t) ↦
        let same = update_ne slots r {i = i} {j = j} (λ e. was (rw e t.1) (rw e t.2)) in
        state_at-some w ptr j (t.0, rw same t.1, rw same t.2)
        ∙ ap (λ (q : Region). some q.state) same
        ∙ sym (state_at-some v ptr j t)
  ]

  -- The key that the slot had, if the store leaves it vacant.
  pub state-update_gone :
      is_vacant r.state ≡ true
      → (ptr : ℕ) → Tracks slots cap ptr i
      → state_at (update slots i r) cap mask ptr ≡ none
  state-update_gone s ptr t = state_at-none w ptr (λ j h. ground (
    arith,
    λ (a : is_vacant (slots j).state ≡ false) (b : (slots j).user_ptr ≡ ptr).
        Tracks-unique v ptr i j t (h, a, b),
  ))

  -- A new key in a vacant slot.
  pub state-publish :
      i < cap
      → is_vacant (slots i).state ≡ true
      → is_vacant r.state ≡ false
      → (ptr : ℕ)
      → state_at (update slots i r) cap mask ptr
        ≡ (if r.user_ptr == ptr then some r.state else state_at slots cap mask ptr)
  state-publish h old new ptr = elim (ℕ_discrete r.user_ptr ptr) [
    | yes e ↦ rw ((==_iff _ ptr).1 e) (
        subst (λ p. state_at (update slots i r) cap mask p ≡ some r.state) e
          (state-update_self h new))
    | no ne ↦ rw (==_false _ ptr ne) (state-update_other ptr (λ f. cc (old, f)) (λ _. ne))
  ]

  -- Another state under the key that the slot has.
  pub state-restate :
      i < cap
      → r.user_ptr ≡ (slots i).user_ptr
      → is_vacant r.state ≡ false
      → (ptr : ℕ)
      → state_at (update slots i r) cap mask ptr
        ≡ (if r.user_ptr == ptr then some r.state else state_at slots cap mask ptr)
  state-restate h key new ptr = elim (ℕ_discrete r.user_ptr ptr) [
    | yes e ↦ rw ((==_iff _ ptr).1 e) (
        subst (λ p. state_at (update slots i r) cap mask p ≡ some r.state) e
          (state-update_self h new))
    | no ne ↦ rw (==_false _ ptr ne) (state-update_other ptr (λ _ e. ne (key ∙ e)) (λ _. ne))
  ]

  -- The slot's key is gone.
  pub state-bury :
      (key : ℕ)
      → Tracks slots cap key i
      → is_vacant r.state ≡ true
      → (ptr : ℕ)
      → state_at (update slots i r) cap mask ptr
        ≡ (if key == ptr then none else state_at slots cap mask ptr)
  state-bury key t new ptr = elim (ℕ_discrete key ptr) [
    | yes e ↦
        rw ((==_iff key ptr).1 e)
          (state-update_gone new ptr (subst (λ p. Tracks slots cap p i) e t))
    | no ne ↦
        rw (==_false key ptr ne)
          (state-update_other ptr (λ _ e. ne (sym t.2 ∙ e)) (λ f. cc (new, f)))
  ]
