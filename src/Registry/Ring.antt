-- ===== src/Registry/Ring.antt =====
-- The quarantine ring as the queue of the slots in it, oldest first.
use coffin.Prelude.{
  ℕ, zero, suc, ◌+◌, ◌-◌, ◌*◌, ◌%◌, ◌≤◌, ◌<◌, ◌≡◌, ◌≢◌, refl, sym, ap, ◌∙◌, List, [], ◌∷◌, ◌++◌,
  arith, length, length-append, tail, update, update_self, update_ne, word, ltb, ◌==◌,
  if◌then◌else◌, wrapping_add,
}
use mathlib.Core.Path.{ap₂}
use native.Mathlib.Nat.{mod-add-mod, mod-eq_of_lt, mod-eq-sub-mod, add-zero, add-mod_right}
use coffin.Registry.{Arena}

-- The `n` entries of the ring from the index `t` on, round its end.
unfoldable pub queued : (ℕ → ℕ) → ℕ → ℕ → ℕ → List ℕ
queued ring cap t zero = []
queued ring cap t (suc n) = queued ring cap t n ++ ring ((t + n) % cap) ∷ []

-- The slots in quarantine.
abbrev pub quarantine : Arena → List ℕ
quarantine a = queued a.ring a.q_cap a.q_tail a.q_len

module _ (ring : ℕ → ℕ) (cap : ℕ) where
  pub length-queued : (t n : ℕ) → length (queued ring cap t n) ≡ n
  unfolding queued
  length-queued t zero = refl
  length-queued t (suc n) = omega (
    arith,
    length-append {0} (queued ring cap t n) (ring ((t + n) % cap) ∷ []),
    length-queued t n,
  )

  -- The oldest entry, and the queue behind it.
  pub queued_front :
      (t n : ℕ) → queued ring cap t (suc n) ≡ ring (t % cap) ∷ queued ring cap (t + 1) n
  unfolding queued
  queued_front t zero = rw add-zero
  queued_front t (suc n) = ap₂ (λ xs i. xs ++ ring (i % cap) ∷ []) (queued_front t n) (omega arith)

  queued-mod : (t n : ℕ) → queued ring cap (t % cap) n ≡ queued ring cap t n
  unfolding queued
  queued-mod t zero = refl
  queued-mod t (suc n) = rw (queued-mod t n, mod-add-mod)

  -- Places fewer than a round apart are different.
  places-ne : (t m n : ℕ) → t < cap → m < n → n < cap → (t + m) % cap ≢ (t + n) % cap
  places-ne t m n ht hm hn = ground (arith, wrap (t + m), wrap (t + n))
    where
      wrap : (x : ℕ) → x < cap + cap → x % cap ≡ (if ltb x cap then x else x - cap)
      wrap x h = ground (
        arith,
        mod-eq_of_lt {n = x} {m = cap},
        mod-eq-sub-mod {n = x} {m = cap},
        mod-eq_of_lt {n = x - cap} {m = cap},
      )

  -- A store behind the queue leaves the queue.
  queued-update_ge :
      (t m n x : ℕ)
      → t < cap
      → n < cap
      → m ≤ n
      → queued (update ring ((t + n) % cap) x) cap t m ≡ queued ring cap t m
  unfolding queued
  queued-update_ge t zero n x ht hn h = refl
  queued-update_ge t (suc m) n x ht hn h =
      ap₂ (λ xs (i : ℕ). xs ++ i ∷ []) (queued-update_ge t m n x ht hn (omega arith))
        (update_ne ring x (λ e. places-ne t m n ht h hn (sym e)))

  -- A store just behind the queue extends it.
  pub queued-update :
      (t n x : ℕ)
      → t < cap
      → n < cap
      → queued (update ring ((t + n) % cap) x) cap t (suc n) ≡ queued ring cap t n ++ x ∷ []
  unfolding queued
  queued-update t n x ht hn =
      ap₂ (λ xs (i : ℕ). xs ++ i ∷ []) (queued-update_ge t n n x ht hn (omega arith))
        (update_self ring x refl)

-- In a full ring, a store over the oldest entry, with the start moved on by one.
pub queued-update_full :
    (ring : ℕ → ℕ) (cap t x : ℕ)
    → t < cap
    → queued (update ring t x) cap ((t + 1) % cap) cap ≡ tail (queued ring cap t cap) ++ x ∷ []
queued-update_full ring zero t x ht = absurd (omega arith)
queued-update_full ring (suc c) t x ht =
    ap (λ i. queued (update ring i x) (suc c) start (suc c)) round
    ∙ queued-update ring (suc c) start c x (omega arith) (omega arith)
    ∙ ap (λ xs. xs ++ x ∷ []) (queued-mod ring (suc c) (t + 1) c ∙ sym rest)
  where
    start : ℕ
    start = (t + 1) % suc c

    round : t ≡ (start + c) % suc c
    round = sym (mod-add-mod (t + 1) (suc c) c ∙ whole)
      where
        whole : (t + 1 + c) % suc c ≡ t
        whole = ap (λ i. i % suc c) turn ∙ add-mod_right t (suc c) ∙ mod-eq_of_lt ht
          where
            turn : t + 1 + c ≡ t + suc c
            turn = omega arith

    rest : tail (queued ring (suc c) t (suc c)) ≡ queued ring (suc c) (t + 1) c
    rest = ap tail (queued_front ring (suc c) t c)

-- The cursors are in range, and the bytes of the ring can be mapped.
pub record IsRing (cap t n : ℕ) : Type 0 where
  pub small : cap * 8 < word
  pub tail_in : t < cap
  pub len_in : n ≤ cap

-- A push on a queue of at most `bound` entries: the oldest leaves a full one.
abbrev pub enqueue : ℕ → List ℕ → ℕ → List ℕ
enqueue bound q i = (if length q == bound then tail q else q) ++ i ∷ []

module _ (ring : ℕ → ℕ) (cap t n i : ℕ) (r : IsRing cap t n) where
  -- The stores of a push into a full ring.
  pub push_full :
      n ≡ cap
      → queued (update ring t i) cap (wrapping_add t 1 % cap) n
        ≡ enqueue cap (queued ring cap t n) i
  push_full e = rw (length-queued, e, bump) (queued-update_full ring cap t i r.tail_in ∙ whole)
    where
      bump : wrapping_add t 1 ≡ t + 1
      bump = omega (arith, r)

      whole :
          tail (queued ring cap t cap) ++ i ∷ []
          ≡ (if cap == cap then tail (queued ring cap t cap) else queued ring cap t cap) ++ i ∷ []
      whole = ground arith

  -- The stores of a push into a ring with room.
  pub push_room :
      n ≢ cap
      → queued (update ring (wrapping_add t n % cap) i) cap t (wrapping_add n 1)
        ≡ enqueue cap (queued ring cap t n) i
  push_room ne =
      rw (length-queued, place, bump)
        (queued-update ring cap t n i r.tail_in (omega (arith, r)) ∙ whole)
    where
      place : wrapping_add t n ≡ t + n
      place = omega (arith, r)

      bump : wrapping_add n 1 ≡ suc n
      bump = omega (arith, r)

      whole :
          queued ring cap t n ++ i ∷ []
          ≡ (if n == cap then tail (queued ring cap t n) else queued ring cap t n) ++ i ∷ []
      whole = ground arith

  pub room_back :
      n ≢ cap
      → queued (update ring (wrapping_add t n % cap) i) cap t (wrapping_add n 1)
        ≡ queued ring cap t n ++ i ∷ []
  room_back ne = push_room ne ∙ ground (arith, length-queued ring cap t n)

  -- The oldest entry of a full ring, and the queue without it.
  pub full_front :
      n ≡ cap
      → (queued ring cap t n ≡ ring t ∷ queued ring cap (t + 1) (n - 1))
        × (queued (update ring t i) cap (wrapping_add t 1 % cap) n
            ≡ queued ring cap (t + 1) (n - 1) ++ i ∷ [])
  full_front e = (front, push_full e ∙ ap (λ q. enqueue cap q i) front ∙ shift)
    where
      size : n ≡ suc (n - 1)
      size = omega (arith, r)

      front : queued ring cap t n ≡ ring t ∷ queued ring cap (t + 1) (n - 1)
      front =
          ap (queued ring cap t) size
          ∙ queued_front ring cap t (n - 1)
          ∙ ap (λ j. ring j ∷ queued ring cap (t + 1) (n - 1)) (mod-eq_of_lt r.tail_in)

      shift :
          enqueue cap (ring t ∷ queued ring cap (t + 1) (n - 1)) i
          ≡ queued ring cap (t + 1) (n - 1) ++ i ∷ []
      shift = ground (arith, length-queued ring cap (t + 1) (n - 1), e, size)
