-- ===== src/Fault/Scan.antt =====
-- What the scan finds.
use coffin.Prelude.{
  ℕ, zero, suc, ◌+◌, ◌≤◌, ◌<◌, ◌≡◌, ◌≢◌, ◌↔◌, refl, sym, ap, ◌∙◌, true, false, ◌⊎◌, inl, inr, arith,
  Bool-cases,
}
use mathlib.Core.Path.{subst}
use native.Mathlib.Decide.{ℕ_discrete}
use coffin.Registry.{is_vacant, Region, Arena}
use coffin.Fault.{wild, FaultInfo, covers, kind_of, info_of, nowhere, scan, classify}

-- A tracked slot whose region holds the address.
abbrev pub Holds : (ℕ → Region) → ℕ → ℕ → ℕ → Type 0
Holds slots cap addr i =
    (i < cap) × (is_vacant (slots i).state ≡ false) × (covers (slots i) addr ≡ true)

-- No address lies in the regions of two tracked slots.
pub record IsApart (slots : ℕ → Region) (cap : ℕ) : Type 0 where
  pub apart : (addr i j : ℕ) → Holds slots cap addr i → Holds slots cap addr j → i ≡ j

pub kind_of-ne-wild : (page : ℕ) (r : Region) (addr : ℕ) → kind_of page r addr ≢ wild
unfolding kind_of
kind_of-ne-wild page r addr = ground arith

module _ (page : ℕ) (slots : ℕ → Region) (addr : ℕ) where
  -- What a scan from some slot on returns: nothing, or the first slot that holds the address.
  abbrev pub Outcome : ℕ → ℕ → FaultInfo → Type 0
  Outcome cap idx found =
      ((found ≡ nowhere) × ((i : ℕ) → idx ≤ i → ¬ Holds slots cap addr i))
      ⊎ ((i : ℕ) × (found ≡ info_of page slots addr i)
          × Holds slots cap addr i
          × ((j : ℕ) → idx ≤ j → j < i → ¬ Holds slots cap addr j))

  -- Where a slot does not hold the address and no later one up to some bound does, none does.
  none_from :
      (bound : ℕ → Type 0)
      → (cap idx : ℕ) → ¬ Holds slots cap addr idx
      → ((j : ℕ) → idx + 1 ≤ j → bound j → ¬ Holds slots cap addr j)
      → (j : ℕ) → idx ≤ j
      → bound j
      → ¬ Holds slots cap addr j
  none_from bound cap idx miss none_later j h b t = elim (ℕ_discrete idx j) [
    | yes p ↦ miss (subst (Holds slots cap addr) (sym p) t)
    | no p ↦ none_later j (omega arith) b t
  ]

  -- A slot that does not hold the address adds nothing.
  pass :
      (cap idx : ℕ) (found : FaultInfo)
      → ¬ Holds slots cap addr idx
      → Outcome cap (idx + 1) found
      → Outcome cap idx found
  pass cap idx found miss (inr (i, e, hit, first)) =
      inr (i, e, hit, none_from (λ j. j < i) cap idx miss first)
  pass cap idx found miss (inl (e, none_later)) =
      inl (e, λ i h. none_from (λ _. Unit) cap idx miss (λ j le _. none_later j le) i h tt)

  scan-Outcome : (n idx cap : ℕ) → idx + n ≡ cap → Outcome cap idx (scan page slots addr n idx)
  unfolding scan
  scan-Outcome zero idx cap e = inl (refl, λ i h t. omega (arith, t.0))
  scan-Outcome (suc n) idx cap e = elim (Bool-cases (is_vacant (slots idx).state)) [
    | inl v ↦
        rw (v, scan)
          (pass cap idx _ (λ t. cc (v, t.1)) (scan-Outcome n (idx + 1) cap (omega arith)))
    | inr v ↦ elim (Bool-cases (covers (slots idx) addr)) [
      | inl c ↦
          rw (v, c, scan) (inr (idx, refl, (omega arith, v, c), λ j le lt. absurd (omega arith)))
      | inr c ↦
          rw (v, c, scan)
            (pass cap idx _ (λ t. cc (c, t.2)) (scan-Outcome n (idx + 1) cap (omega arith)))
    ]
  ]

module _ (page : ℕ) (a : Arena) (addr : ℕ) where
  pub outcome : Outcome page a.slots addr a.cap 0 (classify page a addr)
  unfolding classify
  outcome = scan-Outcome page a.slots addr a.cap 0 a.cap (omega arith)

  pub classify-wild_iff :
      ((classify page a addr).kind ≡ wild) ↔ ((i : ℕ) → ¬ Holds a.slots a.cap addr i)
  unfolding info_of
  classify-wild_iff = elim outcome [
    | inl (e, none_at) ↦ (λ _ i. none_at i (omega arith), λ _. ap (λ (f : FaultInfo). f.kind) e)
    | inr (j, e, hit, _) ↦ (
      λ w.
          absurd
            (kind_of-ne-wild page (a.slots j) addr (sym (ap (λ (f : FaultInfo). f.kind) e) ∙ w)),
      λ nowhere_at. absurd (nowhere_at j hit),
    )
  ]

  -- If no address lies in two tracked regions, `classify` of an address that a tracked region holds
  -- reports that region, with the kind that its state and its guard page give.
  pub classify-Holds :
      IsApart a.slots a.cap
      → (i : ℕ) → Holds a.slots a.cap addr i
      → classify page a addr ≡ info_of page a.slots addr i
  classify-Holds p i t = elim outcome [
    | inl (e, none_at) ↦ absurd (none_at i (omega arith) t)
    | inr (j, e, hit, _) ↦ e ∙ ap (info_of page a.slots addr) (p.apart addr j i hit t)
  ]
