-- ===== src/Fault/Loads/Steady.antt =====
-- What a lookup without a lock answers while writers store states and stacks only.
use coffin.Prelude.{
  ℕ, suc, ◌+◌, ◌-◌, ◌≤◌, ◌<◌, ◌≡◌, refl, sym, ◌∙◌, true, false, ◌⊎◌, inl, inr, arith,
}
use coffin.Registry.{is_vacant, Region}
use coffin.Fault.{kind_of, covers, info_of}
use coffin.Fault.Loads.{classify_loads}
use coffin.Fault.Loads.Steps.{seen, IsPassed, step_found, reach, same_place}

-- Two slots that differ in their state and their stacks only.
abbrev pub SameRegion : Region → Region → Type 0
SameRegion r s =
    (r.base ≡ s.base)
    × (r.total_len ≡ s.total_len)
    × (r.user_ptr ≡ s.user_ptr)
    × (r.guard_addr ≡ s.guard_addr)
    × (r.size ≡ s.size)
    × (r.align ≡ s.align)

-- Writers store only states and stacks, as `free` and `evict` do; slot `i` stays tracked and holds the
-- address, and no slot before it that is ever tracked does.
pub record IsSteady (table : ℕ → ℕ → Region) (cap addr i : ℕ) : Type 0 where
  pub same : (u j : ℕ) → SameRegion (table u j) (table 0 j)
  pub in_table : i < cap
  pub tracked : (u : ℕ) → is_vacant (table u i).state ≡ false
  pub holds : covers (table 0 i) addr ≡ true
  pub others :
      (u j : ℕ) → j < i → (is_vacant (table u j).state ≡ true) ⊎ (covers (table 0 j) addr ≡ false)

module _ (page addr : ℕ) (table : ℕ → ℕ → Region) (cap i : ℕ) (v : IsSteady table cap addr i) where
  covers-seen : (t j : ℕ) → covers (seen page addr table t j) addr ≡ covers (table 0 j) addr
  covers-seen t j = rw ((v.same (t + 1) j).0, (v.same (t + 2) j).1) refl

  passed : (u j : ℕ) → 0 ≤ j → j < 0 + i → IsPassed page addr table u j
  passed u j lo hi = elim (v.others u j (omega arith)) [
    | inl e ↦ inl e
    | inr e ↦ inr (covers-seen u j ∙ e)
  ]

  info-seen :
      (t : ℕ) → info_of page (λ _. seen page addr table t i) addr i ≡ info_of page (table t) addr i
  unfolding info_of kind_of
  info-seen t =
      let now = v.same t i in
      rw
        (
          (v.same (t + 1) i).0 ∙ sym now.0,
          (v.same (t + 2) i).1 ∙ sym now.1,
          (v.same (t + 3) i).2 ∙ sym now.2,
          (v.same (t + 4) i).3 ∙ sym now.3,
          (v.same (t + 5) i).4 ∙ sym now.4,
          (v.same (t + 6) i).5 ∙ sym now.5,
        )
        refl

  -- While the writers store only states and stacks, and the slot stays tracked, the answer is what the
  -- slot says as a whole at one moment of the lookup.
  pub classify_loads-steady :
      (u : ℕ) × (classify_loads page table cap addr ≡ info_of page (table u) addr i)
  unfolding classify_loads
  classify_loads-steady =
      let (t, e) = reach page addr table i cap 0 0 (omega (arith, v.in_table)) passed in
      (
        t,
        e
            ∙ same_place page addr table {n' = suc (cap - i - 1)} t (omega (arith, v.in_table))
                (omega arith)
            ∙ step_found page addr table (cap - i - 1) i t (v.tracked t) (covers-seen t i ∙ v.holds)
            ∙ info-seen t,
      )
