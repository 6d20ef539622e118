-- ===== src/Fault/Loads/Steps.antt =====
-- The scan load by load, one slot at a time.
use coffin.Prelude.{
  ℕ, zero, suc, ◌+◌, ◌-◌, ◌≤◌, ◌<◌, ◌≡◌, refl, ◌∙◌, true, false, ◌⊎◌, inl, inr, arith, Bool-cases,
  if◌then◌else◌,
}
use coffin.Registry.{is_vacant, Region}
use coffin.Fault.{covers, info_of}
use coffin.Fault.Loads.{loaded, scan_loads}

module _ (page addr : ℕ) (table : ℕ → ℕ → Region) where
  -- What is made of one slot, from the moment `t` on.
  abbrev pub seen : ℕ → ℕ → Region
  seen t j = loaded (λ u. table u j) (table t j).state t

  -- The slot is passed over.
  abbrev pub IsPassed : ℕ → ℕ → Type 0
  IsPassed t j = (is_vacant (table t j).state ≡ true) ⊎ (covers (seen t j) addr ≡ false)

  step_passed :
      (n idx t : ℕ)
      → IsPassed t idx
      → (t' : ℕ) × (t ≤ t')
        × (t' ≤ t + 3)
        × (scan_loads page table addr (suc n) idx t ≡ scan_loads page table addr n (idx + 1) t')
  unfolding scan_loads
  step_passed n idx t p = elim (Bool-cases (is_vacant (table t idx).state)) [
    | inl e ↦ (t + 1, omega arith, omega arith, rw (e, scan_loads) refl)
    | inr e ↦ elim p [
      | inl v ↦ cc (v, e)
      | inr c ↦ (t + 3, omega arith, omega arith, rw (e, scan_loads) (rw c refl))
    ]
  ]

  pub same_place :
      {n n' idx idx' : ℕ} (t : ℕ)
      → n ≡ n'
      → idx ≡ idx'
      → scan_loads page table addr n idx t ≡ scan_loads page table addr n' idx' t
  same_place t e e' = rw (e, e') refl

  -- From one slot on, over `d` slots that are passed over whenever they are looked at.
  pub reach :
      (d n idx t : ℕ)
      → d ≤ n
      → ((u j : ℕ) → idx ≤ j → j < idx + d → IsPassed u j)
      → (t' : ℕ) × (scan_loads page table addr n idx t
          ≡ scan_loads page table addr (n - d) (idx + d) t')
  reach zero n idx t h p = (t, same_place t (omega arith) (omega arith))
  reach (suc d) zero idx t h p = absurd (omega arith)
  reach (suc d) (suc n) idx t h p =
      let (t₁, _, _, e) = step_passed n idx t (p t idx (omega arith) (omega arith)) in
      let (t', e') =
        reach d n (idx + 1) t₁ (omega arith) (λ u j lo hi. p u j (omega arith) (omega arith)) in
      (t', e ∙ e' ∙ same_place t' (omega arith) (omega arith))

  pub step_found :
      (n idx t : ℕ)
      → is_vacant (table t idx).state ≡ false
      → covers (seen t idx) addr ≡ true
      → scan_loads page table addr (suc n) idx t ≡ info_of page (λ _. seen t idx) addr idx
  unfolding scan_loads
  step_found n idx t v c = rw (v, scan_loads) (rw c refl)

-- The slots whose loads all see one table are passed over whatever comes later.
module _ (page addr : ℕ) (slots : ℕ → Region) where
  unfoldable pub IsMissed : ℕ → Type 0
  IsMissed j = (is_vacant (slots j).state ≡ true) ⊎ (covers (slots j) addr ≡ false)

  next_moment : (idx t : ℕ) → ℕ
  next_moment idx t = if is_vacant (slots idx).state then t + 1 else t + 3

  next_moment-le : (idx t : ℕ) → t ≤ next_moment idx t
  unfolding next_moment
  next_moment-le idx t = ground arith

  step_missed :
      (n idx t : ℕ)
      → IsMissed idx
      → (table : ℕ → ℕ → Region) → ((u : ℕ) → u < next_moment idx t → table u ≡ slots)
      → scan_loads page table addr (suc n) idx t
        ≡ scan_loads page table addr n (idx + 1) (next_moment idx t)
  unfolding scan_loads next_moment IsMissed
  step_missed n idx t p table same = elim (Bool-cases (is_vacant (slots idx).state)) [
    | inl e ↦
        let now : table t ≡ slots = same t (rw (e, next_moment) (omega arith)) in
        rw (now, e, scan_loads) refl
    | inr e ↦ elim p [
      | inl v ↦ cc (v, e)
      | inr c ↦
          let now : table t ≡ slots = same t (rw (e, next_moment) (omega arith)) in
          let base : table (t + 1) ≡ slots = same (t + 1) (rw (e, next_moment) (omega arith)) in
          let len : table (t + 2) ≡ slots = same (t + 2) (rw (e, next_moment) (omega arith)) in
          rw (scan_loads, now, e) (rw (base, len) (rw c refl))
    ]
  ]

  pub pass_all :
      (d n idx t : ℕ)
      → d ≤ n
      → ((j : ℕ) → idx ≤ j → j < idx + d → IsMissed j)
      → (t' : ℕ) × (t ≤ t')
        × ((table : ℕ → ℕ → Region)
            → ((u : ℕ) → u < t' → table u ≡ slots)
            → scan_loads page table addr n idx t ≡ scan_loads page table addr (n - d) (idx + d) t')
  pass_all zero n idx t h p =
      (t, omega arith, λ table same. same_place page addr table t (omega arith) (omega arith))
  pass_all (suc d) zero idx t h p = absurd (omega arith)
  pass_all (suc d) (suc n) idx t h p =
      let later = next_moment-le idx t in
      let (t', le, e') =
        pass_all d n (idx + 1) (next_moment idx t) (omega arith)
          (λ j lo hi. p j (omega arith) (omega arith)) in
      (
        t',
        omega arith,
        λ table same.
            step_missed n idx t (p idx (omega arith) (omega arith)) table
              (λ u u_lt. same u (omega arith))
            ∙ e' table same
            ∙ same_place page addr table t' (omega arith) (omega arith),
      )
