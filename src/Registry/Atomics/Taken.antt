-- ===== src/Registry/Atomics/Taken.antt =====
-- The newest message of the lock, before and after an access.
use coffin.Prelude.{ℕ, suc, ◌<◌, ◌≡◌, ◌≢◌, sym, ap, ◌∙◌, inl, inr, none, some, arith, update}
use mathlib.Core.Path.{subst}
use native.Mathlib.Decide.{ℕ_discrete, dec_lt}
use coffin.Registry.Atomics.{
  View, Message, Execution, held, after_load, carried, put, lock_order, unlock_order,
}
use coffin.Registry.Atomics.Coherence.{
  Messages, Covers, IsLast, IsFree, IsCoherent, put_self, put_elsewhere, put_beside,
}

-- A store elsewhere leaves the messages of the lock alone.
pub IsLast-put :
    (messages : Messages) (last : ℕ) (m : Message) (x t : ℕ) (m' : Message)
    → held ≢ x
    → IsLast messages last m
    → IsLast (put messages x t m') last m
IsLast-put messages last m x t m' n l = record {
  at = put_elsewhere messages x t m' held last n ∙ l.at;
  beyond = λ u h. put_elsewhere messages x t m' held u n ∙ l.beyond u h;
  taken = λ u m'' h e v free.
      l.taken u m'' h (sym (put_elsewhere messages x t m' held u n) ∙ e) v
        (sym (put_elsewhere messages x t m' held (suc u) n) ∙ free);
}

pub same_message : {m m' : Message} → some m ≡ some m' → m ≡ m'
same_message e = cc e

-- The newest message of the lock is a 0, where one can be taken by an exchange.
pub IsLast-free :
    (messages : Messages) (last t : ℕ) (m m' : Message)
    → IsLast messages last m
    → messages held t ≡ some m'
    → m'.value ≡ 0
    → messages held (suc t) ≡ none
    → (t ≡ last) × (m' ≡ m)
IsLast-free messages last t m m' l e v free = elim (ℕ_discrete t last) [
  | yes p ↦ (p, same_message (sym (subst (λ u. messages held u ≡ some m') p e) ∙ l.at))
  | no n ↦ elim (dec_lt t last) [
    | yes h ↦ absurd (l.taken t m' h e v free)
    | no h ↦ cc (e, l.beyond t (omega arith))
  ]
]

pub IsLast-taken :
    (messages : Messages) (last : ℕ) (m m' : Message)
    → IsLast messages last m
    → IsLast (put messages held (suc last) m') (suc last) m'
IsLast-taken messages last m m' l = record {
  at = put_self messages held (suc last) m';
  beyond = λ u h. put_beside messages held (suc last) m' u (omega arith) ∙ l.beyond u (omega arith);
  taken = λ u m'' h e v free. elim (ℕ_discrete u last) [
    | yes p ↦ cc (
      put_self messages held (suc last) m',
      subst (λ n. put messages held (suc last) m' held (suc n) ≡ none) p free,
    )
    | no n ↦
        l.taken u m'' (omega (arith, n, h))
          (sym (put_beside messages held (suc last) m' u (omega arith)) ∙ e) v
          (sym (put_beside messages held (suc last) m' (suc u) (omega (arith, n))) ∙ free)
  ];
}

one_not_zero : (m m' : Message) → m.value ≡ 1 → m'.value ≡ 0 → some m ≡ some m' → ⊥
one_not_zero m m' v v' e = cc (v, v', ap (λ (n : Message). n.value) (same_message e))

pub IsLast-given :
    (messages : Messages) (last t : ℕ) (m m' : Message)
    → m.value ≡ 1
    → last < t
    → IsLast messages last m
    → IsLast (put messages held t m') t m'
IsLast-given messages last t m m' v h l = record {
  at = put_self messages held t m';
  beyond = λ u lt. put_beside messages held t m' u (omega arith) ∙ l.beyond u (omega arith);
  taken = λ u m'' lt e zero_value free.
      let old = sym (put_beside messages held t m' u (omega arith)) ∙ e in
      elim (dec_lt u last) [
        | yes before ↦
            l.taken u m'' before old zero_value
              (sym (put_beside messages held t m' (suc u) (omega arith)) ∙ free)
        | no p ↦ elim (ℕ_discrete u last) [
          | yes q ↦
              one_not_zero m m'' v zero_value
                (sym l.at ∙ subst (λ n. messages held n ≡ some m'') q old)
          | no n ↦ cc (old, l.beyond u (omega arith))
        ]
      ];
}

-- What the exchange reads and what the drop sends along is a view of everything.
pub Covers-lock :
    (messages : Messages) (v : View) (t : ℕ) (m : Message)
    → Covers messages m.view
    → Covers messages (update (after_load lock_order v held t m) held (suc t))
unfolding after_load
Covers-lock messages v t m c x u n lt = c x u n (ground arith)

pub Covers-unlock :
    (messages : Messages) (v : View) (t : ℕ)
    → Covers messages v
    → Covers messages (carried unlock_order v held t)
unfolding carried
Covers-unlock messages v t c x u n lt = c x u n (ground arith)

pub IsFree-of : {e : Execution} (v : IsCoherent e) → v.latest.value ≡ 0 → IsFree e v.latest
IsFree-of {e} v zero_value = elim v.phase [ inl f ↦ f | inr f ↦ cc (f.value, zero_value) ]
