-- ===== src/Registry/Pending.antt =====
-- The queue between the two halves of `free`, when a slot is marked and not yet in quarantine.
use coffin.Prelude.{
  ℕ, ◌<◌, ◌≡◌, ◌≢◌, sym, ◌∙◌, true, false, List, [], ◌∷◌, ◌++◌, arith, elem, elem-append,
  IsDistinct, append_one-IsDistinct, update,
}
use coffin.Registry.{freed, tomb, is_freed, Region}
use coffin.Registry.Invariant.{IsQueue}

-- The queue between the two halves of `free`: slot `i` is marked, and not yet in quarantine.
pub record IsPending (slots : ℕ → Region) (cap : ℕ) (q : List ℕ) (i : ℕ) : Type 0 where
  pub in_table : i < cap
  pub marked : is_freed (slots i).state ≡ true
  pub waiting : elem i q ≡ false
  pub listed : (j : ℕ) → j < cap → i ≢ j → is_freed (slots j).state ≡ elem j q
  pub inside : (j : ℕ) → elem j q ≡ true → j < cap
  pub distinct : IsDistinct q

module _ (slots : ℕ → Region) (cap : ℕ) where
  pub mark-IsPending :
      (q : List ℕ) (i : ℕ) (r : Region)
      → IsQueue slots cap q
      → i < cap
      → is_freed (slots i).state ≡ false
      → r.state ≡ freed
      → IsPending (update slots i r) cap q i
  mark-IsPending q i r v h old new = record {
    in_table = h;
    marked = ground arith;
    waiting = sym (v.listed i h) ∙ old;
    listed = λ j hj ne. ground (arith, v.listed j hj);
    inside = v.inside;
    distinct = v.distinct;
  }

  pub room-IsQueue :
      (q : List ℕ) (i : ℕ) → IsPending slots cap q i → IsQueue slots cap (q ++ i ∷ [])
  room-IsQueue q i p = record {
    listed = λ j h. rw elem-append (ground (arith, p.listed j h, p));
    inside = λ j h. ground (arith, elem-append j q (i ∷ []), p.inside j, p.in_table);
    distinct = append_one-IsDistinct q i p.distinct p.waiting;
  }

  pub full-IsQueue :
      (x : ℕ) (q : List ℕ) (i : ℕ) (r : Region)
      → IsPending slots cap (x ∷ q) i
      → r.state ≡ tomb
      → IsQueue (update slots x r) cap (q ++ i ∷ [])
  full-IsQueue x q i r p new = record {
    listed =
        λ j h. rw elem-append (ground (arith, p.listed j h, p.marked, p.waiting, p.distinct.0));
    inside = λ j h. ground (arith, elem-append j q (i ∷ []), p.inside j, p.in_table);
    distinct = append_one-IsDistinct q i p.distinct.1 (ground (arith, p.waiting));
  }
