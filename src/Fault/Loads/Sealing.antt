-- ===== src/Fault/Loads/Sealing.antt =====
-- A lookup without a lock while `free` marks the region.
use coffin.Prelude.{
  ℕ, zero, suc, ◌≡◌, ◌<◌, inl, inr, refl, sym, ap, ◌∙◌, false, List, take, arith, Bool-cases,
}
use coffin.Registry.{is_vacant, Region, Arena}
use coffin.Registry.Publish.{seal_stores}
use coffin.Registry.Lock.{apply_all}
use coffin.Fault.{info_of, covers}
use coffin.Fault.Scan.{Holds, IsApart}
use coffin.Fault.Loads.{classify_loads}
use coffin.Fault.Loads.Steady.{SameRegion, IsSteady, classify_loads-steady}

module _ (a : Arena) (i : ℕ) (ips : List ℕ) where
  -- The arena behind the first so many stores of `free` into slot `i`.
  abbrev pub marking : ℕ → Arena
  marking n = apply_all (take n (seal_stores ips i)) a

  -- The table at each moment, by the number of stores that are made then.
  abbrev pub table : (ℕ → ℕ) → ℕ → ℕ → Region
  table stored u = (marking (stored u)).slots

  marking-same : (n j : ℕ) → SameRegion ((marking n).slots j) (a.slots j)
  marking-same zero j = (refl, refl, refl, refl, refl, refl)
  marking-same (suc zero) j = ground arith
  marking-same (suc (suc zero)) j = ground arith
  marking-same (suc (suc (suc zero))) j = ground arith
  marking-same (suc (suc (suc (suc n)))) j = ground arith

  marking-tracked :
      (n : ℕ) → is_vacant (a.slots i).state ≡ false → is_vacant ((marking n).slots i).state ≡ false
  marking-tracked zero v = v
  marking-tracked (suc zero) v = ground arith
  marking-tracked (suc (suc zero)) v = ground arith
  marking-tracked (suc (suc (suc zero))) v = ground arith
  marking-tracked (suc (suc (suc (suc n)))) v = ground arith

  marking-others : (n j : ℕ) → j < i → ((marking n).slots j).state ≡ (a.slots j).state
  marking-others zero j h = refl
  marking-others (suc zero) j h = ground arith
  marking-others (suc (suc zero)) j h = ground arith
  marking-others (suc (suc (suc zero))) j h = ground arith
  marking-others (suc (suc (suc (suc n)))) j h = ground arith

  module _ (page addr : ℕ) (apart : IsApart a.slots a.cap) (holds : Holds a.slots a.cap addr i)
      (stored : ℕ → ℕ) where
    same-start : (u j : ℕ) → SameRegion (table stored u j) (table stored 0 j)
    same-start u j =
        let now = marking-same (stored u) j in
        let then = marking-same (stored 0) j in
        (
          now.0 ∙ sym then.0,
          now.1 ∙ sym then.1,
          now.2 ∙ sym then.2,
          now.3 ∙ sym then.3,
          now.4 ∙ sym then.4,
          now.5 ∙ sym then.5,
        )

    covers-start : (j : ℕ) → covers (table stored 0 j) addr ≡ covers (a.slots j) addr
    covers-start j = rw ((marking-same (stored 0) j).0, (marking-same (stored 0) j).1) refl

    apart_below : (j : ℕ) → j < i → Holds a.slots a.cap addr j → ⊥
    apart_below j h t = omega (arith, apart.apart addr j i t holds)

    table-IsSteady : IsSteady (table stored) a.cap addr i
    table-IsSteady = record {
      same = same-start;
      in_table = holds.0;
      tracked = λ u. marking-tracked (stored u) holds.1;
      holds = covers-start i ∙ holds.2;
      others = λ u j h. elim (Bool-cases (is_vacant (a.slots j).state)) [
        | inl v ↦ inl (ap is_vacant (marking-others (stored u) j h) ∙ v)
        | inr v ↦ elim (Bool-cases (covers (a.slots j) addr)) [
          | inl c ↦ absurd (apart_below j h (omega (arith, holds.0), v, c))
          | inr c ↦ inr (covers-start j ∙ c)
        ]
      ];
    }

    -- In an arena whose tracked regions are apart, an address of a tracked region is looked up load by
    -- load, and at every moment `free` has made any number of its stores into the slot of that region.
    -- Then the answer is what that slot says, as a whole, at one moment of the lookup.
    pub classify_loads-sealing :
        (u : ℕ) × (classify_loads page (table stored) a.cap addr
          ≡ info_of page (table stored u) addr i)
    classify_loads-sealing = classify_loads-steady page addr (table stored) a.cap i table-IsSteady
