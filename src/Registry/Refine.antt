-- ===== src/Registry/Refine.antt =====
-- The arena implements the book: each call returns what the book's call returns, and leaves an arena
-- that reads as the book that is left.
use coffin.Prelude.{
  ℕ, ◌+◌, ◌<◌, ◌≡◌, ◌≢◌, refl, ap, ◌∙◌, true, none, some, inl, inr, arith, Option-cases,
  if◌then◌else◌, lt→ltb, ltb-false, ◌==◌, List, [], ◌∷◌, length, elem, update, update_ne,
  wrapping_add,
}
use mathlib.Core.List.{map}
use coffin.Platform.{Platform}
use coffin.Registry.{
  ready, is_vacant, Region, Arena, Entry, home, find_vacant, insert, publish, capture_ips,
}
use coffin.Registry.Book
use coffin.Registry.Book.{Book}
use coffin.Registry.Lookup.{IsIndexed, publish-IsIndexed, IsFresh}
use coffin.Registry.Ring.{quarantine, length-queued}
use coffin.Registry.Invariant.{IsValid, cap-le}
use coffin.Registry.Probe.{home-lt, find_vacant-some}
use coffin.Registry.Room.{full_of_none, room_of_vacant}
use coffin.Registry.Views.{state_at, IsFresh-of, state-publish}

-- The key of a slot.
abbrev pub key_of : (ℕ → Region) → ℕ → ℕ
key_of slots i = (slots i).user_ptr

-- Equal keys on the members of a queue give equal lists of keys.
pub keys-congr :
    (f g : ℕ → ℕ) (q : List ℕ) → ((i : ℕ) → elem i q ≡ true → f i ≡ g i) → map f q ≡ map g q
keys-congr f g [] h = refl
keys-congr f g (x ∷ q) h = ground (arith, h x, keys-congr f g q (λ i e. h i (ground arith)))

pub length-map : (f : ℕ → ℕ) (q : List ℕ) → length (map f q) ≡ length q
length-map f [] = refl
length-map f (x ∷ q) = ground (arith, length-map f q)

-- The arena reads as the book.
pub record Reads (a : Arena) (b : Book) : Type 0 where
  pub states : (ptr : ℕ) → state_at a.slots a.cap a.mask ptr ≡ b.states ptr
  pub queue : map (key_of a.slots) (quarantine a) ≡ b.queue
  pub live : a.live ≡ b.live

module _ (os : Platform) {k : ℕ} {a : Arena} (v : IsValid k a) {b : Book} (reads : Reads a b)
    (w : os.World) where
  load : b.live + length b.queue ≡ a.live + a.q_len
  load = rw (← reads.live, ← reads.queue, length-map, length-queued)

  abbrev published : Entry → ℕ → Arena
  published e i = record a {
    slots = update a.slots i (publish e (capture_ips (os.trace w)) (a.slots i));
    live = wrapping_add a.live 1;
  }

  published-Reads :
      (e : Entry) (i : ℕ)
      → b.states e.user_ptr ≡ none
      → find_vacant a.slots a.mask a.cap (home a.mask e.user_ptr) ≡ some i
      → (i < a.cap) × (is_vacant (a.slots i).state ≡ true)
      → Reads
          (published e i)
          (record b { states = update b.states e.user_ptr (some ready); live = b.live + 1 })
  published-Reads e i absent at t = record {
    states = λ ptr.
        state-publish v.indexed i _ indexed t.0 t.1 refl ptr
        ∙ ap (λ s. if e.user_ptr == ptr then some ready else s) (reads.states ptr);
    queue =
        keys-congr _ _ (quarantine a)
          (λ j h. ap (λ (q : Region). q.user_ptr) (update_ne a.slots _ (apart j h)))
        ∙ reads.queue;
    live = omega (arith, reads.live, cap-le v, room_of_vacant v i t.0 t.1);
  }
    where
      fresh : IsFresh a.slots a.cap e.user_ptr
      fresh = IsFresh-of v.indexed e.user_ptr (reads.states e.user_ptr ∙ absent)

      indexed : IsIndexed k (published e i).slots a.cap a.mask
      indexed = publish-IsIndexed v.indexed i _ refl fresh at

      apart : (j : ℕ) → elem j (quarantine a) ≡ true → i ≢ j
      apart j h = ground (arith, v.queue.listed j, v.queue.inside j, t)

  -- On a valid arena that reads as a book, `insert` of a pointer that the book does not track returns
  -- what the book's insert returns, and leaves an arena that reads as the book left.
  pub insert_refines :
      (e : Entry)
      → b.states e.user_ptr ≡ none
      → let (r, a') = insert os e a w in
        let (r', b') = Book.insert a.cap e.user_ptr b in (r ≡ r') × Reads a' b'
  unfolding insert Book.insert
  insert_refines e absent =
      elim (Option-cases (find_vacant a.slots a.mask a.cap (home a.mask e.user_ptr))) [
        | inl full ↦
            rw (full, insert, load, ltb-false _ _ (full_of_none v _ begins full)) (refl, reads)
        | inr (i, at) ↦
            let t = find_vacant-some v.indexed.table a.slots a.cap _ begins at in
            rw (at, insert, load, lt→ltb _ _ (room_of_vacant v i t.0 t.1))
              (refl, published-Reads e i absent at t)
      ]
    where
      begins : home a.mask e.user_ptr < a.cap
      begins = home-lt v.indexed.table e.user_ptr
