-- ===== src/Fault/Loads/Torn.antt =====
-- What a lookup without a lock can answer when its slot is reused meanwhile.
use coffin.Prelude.{
  ℕ, suc, ◌+◌, ◌-◌, ◌≤◌, ◌<◌, ◌≡◌, ◌≢◌, refl, ap, ◌∙◌, inl, inr, arith, Bool-cases, leb, le→leb,
  leb-false, if◌then◌else◌,
}
use coffin.Registry.{is_vacant, Region, Arena}
use coffin.Fault.{wild, covers, info_of}
use coffin.Fault.Scan.{Holds, IsApart, kind_of-ne-wild}
use coffin.Fault.Loads.{scan_loads, classify_loads}
use coffin.Fault.Loads.Steps.{seen, IsMissed, step_found, same_place, pass_all}

-- The table is the one of `a` up to a moment, and the one of `b` after it.
abbrev pub switched : Arena → Arena → ℕ → ℕ → ℕ → Region
switched a b moment u = if leb u moment then a.slots else b.slots

module _ (page addr : ℕ) (a b : Arena) (i : ℕ) (apart : IsApart a.slots a.cap)
    (holds : Holds a.slots a.cap addr i) where
  apart_below : (j : ℕ) → j < 0 + i → Holds a.slots a.cap addr j → ⊥
  apart_below j hi h = omega (arith, apart.apart addr j i h holds)

  IsMissed-before : (j : ℕ) → 0 ≤ j → j < 0 + i → IsMissed page addr a.slots j
  unfolding IsMissed
  IsMissed-before j lo hi = elim (Bool-cases (is_vacant (a.slots j).state)) [
    | inl v ↦ inl v
    | inr v ↦ elim (Bool-cases (covers (a.slots j) addr)) [
      | inl c ↦ absurd (apart_below j hi (omega (arith, holds.0), v, c))
      | inr c ↦ inr c
    ]
  ]

  -- What is loaded of the slot from two moments before the change on.
  abbrev mixed : Region
  mixed = record (a.slots i) {
    user_ptr = (b.slots i).user_ptr;
    guard_addr = (b.slots i).guard_addr;
    size = (b.slots i).size;
    align = (b.slots i).align;
  }

  switched_until : (moment u : ℕ) → u ≤ moment → switched a b moment u ≡ a.slots
  switched_until moment u h = rw (le→leb u moment h) refl

  switched_after : (moment u : ℕ) → moment < u → switched a b moment u ≡ b.slots
  switched_after moment u h = rw (leb-false u moment h) refl

  seen-mixed : (t : ℕ) → seen page addr (switched a b (t + 2)) t i ≡ mixed
  seen-mixed t =
      let m = t + 2 in
      λ j. record (switched_until m t (omega arith) j i) {
        base = (switched_until m (t + 1) (omega arith) j i).base;
        total_len = (switched_until m (t + 2) (omega arith) j i).total_len;
        user_ptr = (switched_after m (t + 3) (omega arith) j i).user_ptr;
        guard_addr = (switched_after m (t + 4) (omega arith) j i).guard_addr;
        size = (switched_after m (t + 5) (omega arith) j i).size;
        align = (switched_after m (t + 6) (omega arith) j i).align;
      }

  found_mixed :
      (t : ℕ)
      → scan_loads page (switched a b (t + 2)) addr (a.cap - i) (0 + i) t
        ≡ info_of page (λ _. mixed) addr i
  found_mixed t =
      same_place page addr (switched a b (t + 2)) {n' = suc (a.cap - i - 1)} t
        (omega (arith, holds.0)) (omega arith)
      ∙ step_found page addr (switched a b (t + 2)) (a.cap - i - 1) i t
          (ap (λ (r : Region). is_vacant r.state) (seen-mixed t) ∙ holds.1)
          (ap (λ (r : Region). covers r addr) (seen-mixed t) ∙ holds.2)
      ∙ ap (λ (r : Region). info_of page (λ _. r) addr i) (seen-mixed t)

  -- An address that a tracked region of the arena `a` holds, whose tracked regions are apart, is
  -- looked up load by load, and `b` is any arena that the writers may turn `a` into meanwhile. Then
  -- there is a moment between two of the loads such that, if `a` becomes `b` there, the answer is
  -- the slot with the base and the length that `a` has in it and the pointer, the size and the
  -- alignment that `b` has in it, and is not WILD.
  pub classify_loads-torn :
      (moment : ℕ) × (let fi = classify_loads page (switched a b moment) a.cap addr in
        (fi.slot ≡ i)
        × (fi.base ≡ (a.slots i).base)
        × (fi.total_len ≡ (a.slots i).total_len)
        × (fi.user_ptr ≡ (b.slots i).user_ptr)
        × (fi.size ≡ (b.slots i).size)
        × (fi.align ≡ (b.slots i).align)
        × (fi.kind ≢ wild))
  unfolding classify_loads info_of
  classify_loads-torn =
      let (t, le, e) =
        pass_all page addr a.slots i a.cap 0 0 (omega (arith, holds.0)) IsMissed-before in
      let reached = e (switched a b (t + 2)) (λ u h. rw (le→leb u (t + 2) (omega arith)) refl) in
      (
        t + 2,
        rw (classify_loads, reached ∙ found_mixed t)
            (refl, refl, refl, refl, refl, refl, kind_of-ne-wild page mixed addr),
      )
