-- ===== src/Registry/Publish/Unseen.antt =====
-- No reader sees a half-written slot.
use coffin.Prelude.{
  ℕ, zero, suc, ◌≡◌, refl, ap, ◌∙◌, true, some, List, [], ◌∷◌, ◌++◌, ◌⊎◌, inl, inr, arith, take,
  update, update_self, wrapping_add, wrapping_sub,
}
use mathlib.Core.Path.{fun_ext, subst}
use mathlib.Core.List.{map}
use coffin.Platform.{Platform}
use coffin.Registry.{
  is_vacant, ready, freed, Region, Arena, Entry, home, find_vacant, capture_ips, insert, seal,
}
use coffin.Registry.Lock.{apply_all}
use coffin.Registry.Probe.{home-lt, find_vacant-some}
use coffin.Registry.Invariant.{IsValid}
use coffin.Registry.Publish.{store_slot, fill, insert_stores, seal_stores}
use coffin.Registry.Publish.Looks.{
  LooksLike, LooksLike-vacant, LooksLike-trans, LooksLike-refl, LooksLike-live, LooksLike-free_ips,
}

update-update :
    {A : Type 0} (f : ℕ → A) (i : ℕ) (x y : A) → update (update f i x) i y ≡ update f i y
update-update f i x y = fun_ext (λ j. ground arith)

update-same : {A : Type 0} (f : ℕ → A) (i : ℕ) → f ≡ update f i (f i)
update-same f i = fun_ext (λ j. ground arith)

store_slot-twice :
    (i : ℕ) (f g : Region → Region) (a : Arena)
    → store_slot i g (store_slot i f a) ≡ store_slot i (λ r. g (f r)) a
store_slot-twice i f g a =
    let once = update_self a.slots (f (a.slots i)) refl in
    ap (λ (h : ℕ → Region). record a { slots = h })
      (ap (λ r. update (update a.slots i (f (a.slots i))) i (g r)) once
        ∙ update-update a.slots i (f (a.slots i)) (g (f (a.slots i))))

store_slot-all :
    (i : ℕ) (gs : List (Region → Region)) (a : Arena)
    → apply_all (map (store_slot i) gs) a ≡ store_slot i (apply_all gs) a
store_slot-all i [] a = ap (λ (f : ℕ → Region). record a { slots = f }) (update-same a.slots i)
store_slot-all i (g ∷ gs) a =
    store_slot-all i gs (store_slot i g a) ∙ store_slot-twice i g (apply_all gs) a

-- Stores that leave the state alone.
abbrev KeepState : List (Region → Region) → Type 0
KeepState [] = Unit
KeepState (f ∷ fs) = ((r : Region) → (f r).state ≡ r.state) × KeepState fs

fill-KeepState : (e : Entry) (ips : List ℕ) → KeepState (fill e ips)
fill-KeepState e ips =
    (λ r. refl, (λ r. refl, (λ r. refl, (λ r. refl, (λ r. refl, (λ r. refl, (λ r. refl, tt)))))))

-- A reader between two of the stores sees the arena of before them or that of after them.
abbrev pub Unseen : List (Arena → Arena) → Arena → Arena → Type 0
Unseen fs a b =
    (n : ℕ) → LooksLike (apply_all (take n fs) a) a ⊎ LooksLike (apply_all (take n fs) a) b

module _ (i : ℕ) (f : Region → Region) (count : Arena → ℕ) where
  abbrev commit : List (Arena → Arena)
  commit = store_slot i f ∷ (λ a. record a { live = count a }) ∷ []

  commit-Unseen : (a : Arena) → Unseen commit a (apply_all commit a)
  commit-Unseen a zero = inl (LooksLike-refl _)
  commit-Unseen a (suc zero) = inr (LooksLike-live (store_slot i f a) _)
  commit-Unseen a (suc (suc zero)) = inr (LooksLike-refl _)
  commit-Unseen a (suc (suc (suc n))) = inr (LooksLike-refl _)

  fill-Unseen :
      (gs : List (Region → Region))
      → KeepState gs
      → (a : Arena) → is_vacant (a.slots i).state ≡ true
      → Unseen (map (store_slot i) gs ++ commit) a (apply_all (map (store_slot i) gs ++ commit) a)
  fill-Unseen [] k a v n = commit-Unseen a n
  fill-Unseen (g ∷ gs) k a v zero = inl (LooksLike-refl _)
  fill-Unseen (g ∷ gs) (same, k) a v (suc n) =
      elim (fill-Unseen gs k (store_slot i g a)
        (rw (update_self a.slots (g (a.slots i)) refl) (ap is_vacant (same (a.slots i)) ∙ v)) n) [
          | inl s ↦
              inl (
                LooksLike-trans _ _ _ s (LooksLike-vacant a i (g (a.slots i)) v (same (a.slots i))))
          | inr s ↦ inr s
        ]

module _ (os : Platform) (a : Arena) (w : os.World) (i : ℕ) where
  -- The stores of `insert`, one after the other, are the call.
  pub insert-stores :
      (e : Entry)
      → find_vacant a.slots a.mask a.cap (home a.mask e.user_ptr) ≡ some i
      → apply_all (insert_stores e (capture_ips (os.trace w)) i) a ≡ (insert os e a w).1
  unfolding insert
  insert-stores e takes =
      let ips = capture_ips (os.trace w) in
      rw (insert, takes)
        (ap (λ (b : Arena). record b { live = wrapping_add b.live 1 })
          (store_slot-all i (fill e ips ++ (λ r. record r { state = ready }) ∷ []) a))

  -- A lookup without the lock, between any two stores of an `insert` that finds a slot in a valid
  -- arena, gives what it gave before the call or what it gives after it, `classify` at every address
  -- and `state_of` at every pointer.
  pub insert-Unseen :
      {k : ℕ}
      → IsValid k a
      → (e : Entry) → find_vacant a.slots a.mask a.cap (home a.mask e.user_ptr) ≡ some i
      → (n : ℕ)
      → LooksLike (apply_all (take n (insert_stores e (capture_ips (os.trace w)) i)) a) a
        ⊎ LooksLike
            (apply_all (take n (insert_stores e (capture_ips (os.trace w)) i)) a)
            (insert os e a w).1
  insert-Unseen v e takes =
      let ips = capture_ips (os.trace w) in
      let at =
        find_vacant-some v.indexed.table a.slots a.cap (home a.mask e.user_ptr)
          (home-lt v.indexed.table e.user_ptr) takes in
      subst (Unseen (insert_stores e ips i) a) (insert-stores e takes) (
        fill-Unseen i (λ r. record r { state = ready }) (λ b. wrapping_add b.live 1) (fill e ips)
          (fill-KeepState e ips) a at.1)

  pub seal-stores :
      (total_len : ℕ)
      → apply_all (seal_stores (capture_ips (os.trace w)) i) a ≡ (seal os i total_len a w).0
  unfolding seal
  seal-stores total_len =
      let ips = capture_ips (os.trace w) in
      ap (λ (b : Arena). record b { live = wrapping_sub b.live 1 })
        (store_slot-all i
          ((λ r. record r { free_ips = ips }) ∷ (λ r. record r { state = freed }) ∷ []) a)

  -- A lookup without the lock, between any two stores that `free` makes before it pushes the slot
  -- into quarantine, gives what it gave before the call or what it gives after them.
  pub seal-Unseen :
      (total_len : ℕ)
      → (n : ℕ)
      → LooksLike (apply_all (take n (seal_stores (capture_ips (os.trace w)) i)) a) a
        ⊎ LooksLike
            (apply_all (take n (seal_stores (capture_ips (os.trace w)) i)) a)
            (seal os i total_len a w).0
  seal-Unseen total_len = subst (Unseen (seal_stores ips i) a) (seal-stores total_len) by_store
    where
      ips : List ℕ
      ips = capture_ips (os.trace w)

      by_store : Unseen (seal_stores ips i) a (apply_all (seal_stores ips i) a)
      by_store zero = inl (LooksLike-refl _)
      by_store (suc n) =
          let b = store_slot i (λ r. record r { free_ips = ips }) a in
          let unseen =
            commit-Unseen i (λ r. record r { state = freed }) (λ c. wrapping_sub c.live 1) b n in
          elim unseen [
            | inl s ↦ inl (LooksLike-trans _ _ _ s (LooksLike-free_ips a i ips))
            | inr s ↦ inr s
          ]
