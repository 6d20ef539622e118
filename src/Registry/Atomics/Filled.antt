-- ===== src/Registry/Atomics/Filled.antt =====
-- What `insert` leaves behind: the fields of its slot are filled before the state is stored.
use coffin.Prelude.{
  ℕ, suc, ◌≤◌, ◌<◌, ◌≡◌, ◌≢◌, refl, sym, ◌∙◌, true, ◌⊎◌, inl, inr, none, some, List, [], ◌∷◌, arith,
  update, update_self, update_ne,
}
use mathlib.Core.Path.{subst}
use coffin.Registry.{Entry}
use coffin.Registry.Atomics.{
  Message, Execution, held, carried, store_by, Acts, fill_order, publish_order, state_place,
  field_place, words_from, insert_fields, Inserting, fill_field, publish_state, meanwhile,
}
use coffin.Registry.Atomics.Coherence.{IsCoherent, put_self, put_elsewhere, IsCoherent-IsHolder}
use coffin.Registry.Atomics.Held.{store_by-IsCoherent, Acts-IsCoherent}
use coffin.Registry.Atomics.Kept.{Acts-kept, Acts-view_other, Acts-holds_other}

-- The stores of `fields` have one of `value` to `x`.
unfoldable pub InFields : ℕ → ℕ → List (ℕ × ℕ) → Type 0
InFields x value [] = ⊥
InFields x value ((y, stored_value) ∷ rest) =
    ((x ≡ y) × (value ≡ stored_value)) ⊎ InFields x value rest

-- They go upwards, from above a place.
pub IsAbove : ℕ → List (ℕ × ℕ) → Type 0
IsAbove lower [] = Unit
IsAbove lower ((y, value) ∷ rest) = (lower < y) × IsAbove y rest

-- What `insert` relies on as it goes.
pub record IsFilling (i : ℕ) (e : Execution) : Type 0 where
  pub coherent : IsCoherent e
  pub holds : e.holds i ≡ true

-- A field is filled: the newest message of it has the value, and the thread has seen it.
pub record IsFilled (i x value : ℕ) (e : Execution) : Type 0 where
  pub message : Message
  pub at : e.messages x (e.view i x) ≡ some message
  pub equal : message.value ≡ value

-- A field is published: its newest message has the value, and the message READY sends its stamp along.
pub record IsPublished (slot published x value : ℕ) (e : Execution) : Type 0 where
  pub stamp : ℕ
  pub message : Message
  pub at : e.messages x stamp ≡ some message
  pub equal : message.value ≡ value
  pub newest : (u : ℕ) → stamp < u → e.messages x u ≡ none
  pub flag : Message
  pub flag_at : e.messages (state_place slot) published ≡ some flag
  pub ready : flag.value ≡ 1
  pub sent : stamp ≤ flag.view x

IsFilling-fill_field :
    (i x t value : ℕ) (e : Execution)
    → x ≢ held
    → e.view i x < t
    → IsFilling i e
    → IsFilling i (store_by i fill_order x t value e)
IsFilling-fill_field i x t value e n h f = record {
  coherent = store_by-IsCoherent i fill_order x t value e n f.holds h f.coherent;
  holds = f.holds;
}

IsFilling-other :
    (j i : ℕ) {e e' : Execution} → j ≢ i → Acts j e e' → IsFilling i e → IsFilling i e'
IsFilling-other j i n a f = record {
  coherent = Acts-IsCoherent j a f.coherent;
  holds = Acts-holds_other j i n a ∙ f.holds;
}

IsFilled-fill_field :
    (i x t value : ℕ) (e : Execution) → IsFilled i x value (store_by i fill_order x t value e)
IsFilled-fill_field i x t value e =
    let now = update_self e.view (update (e.view i) x t) {i = i} refl in
    record {
      message = record { value = value; view = carried fill_order (e.view i) x t };
      at = rw now (rw (update_self (e.view i) t {i = x} refl) (put_self e.messages x t _));
      equal = refl;
    }

IsFilled-elsewhere :
    (i x value y t other : ℕ) (e : Execution)
    → x ≢ y
    → IsFilled i x value e
    → IsFilled i x value (store_by i fill_order y t other e)
IsFilled-elsewhere i x value y t other e n f =
    let now = update_self e.view (update (e.view i) y t) {i = i} refl in
    record {
      message = f.message;
      at = rw now (
          rw (update_ne (e.view i) t (λ p. n (sym p)))
            (put_elsewhere e.messages y t _ x _ n ∙ f.at));
      equal = f.equal;
    }

IsFilled-other :
    (j i x value : ℕ) {e e' : Execution}
    → j ≢ i
    → Acts j e e'
    → IsFilled i x value e
    → IsFilled i x value e'
IsFilled-other j i x value n a f = record {
  message = f.message;
  at = rw (Acts-view_other j i n a) (Acts-kept j a x _ f.message f.at);
  equal = f.equal;
}

IsPublished-publish_state :
    (i slot published x value : ℕ) (e : Execution)
    → x ≢ held
    → x ≢ state_place slot
    → IsFilling i e
    → IsFilled i x value e
    → IsPublished slot published x value (store_by i publish_order (state_place slot) published 1 e)
unfolding carried
IsPublished-publish_state i slot published x value e n n' g f = record {
  stamp = e.view i x;
  message = f.message;
  at = put_elsewhere e.messages (state_place slot) published _ x _ n' ∙ f.at;
  equal = f.equal;
  newest = λ u h.
      put_elsewhere e.messages (state_place slot) published _ x u n'
      ∙ (IsCoherent-IsHolder g.coherent i g.holds).covered x u n h;
  flag = record { value = 1; view = update (e.view i) (state_place slot) published };
  flag_at = put_self e.messages (state_place slot) published _;
  ready = refl;
  sent = rw (update_ne (e.view i) published (λ p. n' (sym p))) (omega arith);
}

-- From a filled field to the end of `insert`.
IsFilled-IsPublished :
    (i slot published x value lower : ℕ) {fields : List (ℕ × ℕ)} {e e' : Execution}
    → state_place slot < x
    → x ≤ lower
    → IsAbove lower fields
    → IsFilling i e
    → IsFilled i x value e
    → Inserting i slot published fields e e'
    → IsPublished slot published x value e'
unfolding IsAbove
IsFilled-IsPublished i slot published x value lower h k up g f
      (fill_field y t v rest e e' lt free r) =
    let (first, up') = up in
    IsFilled-IsPublished i slot published x value y h (omega arith) up'
      (IsFilling-fill_field i y t v e (omega arith) lt g)
      (IsFilled-elsewhere i x value y t v e (omega arith) f) r
IsFilled-IsPublished i slot published x value lower h k up g f (publish_state e lt free) =
    IsPublished-publish_state i slot published x value e (omega arith) (omega arith) g f
IsFilled-IsPublished i slot published x value lower h k up g f (meanwhile j fields e e' e'' n a r) =
    IsFilled-IsPublished i slot published x value lower h k up
      (IsFilling-other j i (λ p. n (sym p)) a g) (IsFilled-other j i x value (λ p. n (sym p)) a f) r

-- `insert` publishes every field that it fills.
pub Inserting-IsPublished :
    (i slot published x value lower : ℕ) {fields : List (ℕ × ℕ)} {e e' : Execution}
    → state_place slot ≤ lower
    → IsAbove lower fields
    → InFields x value fields
    → IsFilling i e
    → Inserting i slot published fields e e'
    → IsPublished slot published x value e'
unfolding InFields IsAbove
Inserting-IsPublished i slot published x value lower h up (inl p) g
      (fill_field y t v rest e e' lt free r) =
    let (first, up') = up in
    let (same, equal) = p in
    IsFilled-IsPublished i slot published x value y (omega arith) (omega arith) up'
      (IsFilling-fill_field i y t v e (omega arith) lt g)
      (subst (λ z. IsFilled i z value (store_by i fill_order y t v e)) (sym same)
        (subst (λ z. IsFilled i y z (store_by i fill_order y t v e)) (sym equal)
          (IsFilled-fill_field i y t v e)))
      r
Inserting-IsPublished i slot published x value lower h up (inr p) g
      (fill_field y t v rest e e' lt free r) =
    let (first, up') = up in
    Inserting-IsPublished i slot published x value y (omega arith) up' p
      (IsFilling-fill_field i y t v e (omega arith) lt g) r
Inserting-IsPublished i slot published x value lower h up p g (publish_state e lt free) = absurd p
Inserting-IsPublished i slot published x value lower h up p g (meanwhile j fields e e' e'' n a r) =
    Inserting-IsPublished i slot published x value lower h up p
      (IsFilling-other j i (λ q. n (sym q)) a g) r

words_from-IsAbove : (words : List ℕ) (lower x : ℕ) → lower < x → IsAbove lower (words_from x words)
unfolding IsAbove words_from
words_from-IsAbove [] lower x h = tt
words_from-IsAbove (word ∷ rest) lower x h = (h, words_from-IsAbove rest x (suc x) (omega arith))

pub insert_fields-IsAbove :
    (slot : ℕ) (entry : Entry) (alloc_ips : List ℕ)
    → IsAbove (state_place slot) (insert_fields slot entry alloc_ips)
unfolding insert_fields
insert_fields-IsAbove slot entry alloc_ips =
    words_from-IsAbove _ (state_place slot) (field_place slot 0) (omega arith)
