-- ===== src/Registry/RoundTrip.antt =====
-- src/registry.rs, the tests: `insert_lookup_roundtrip` and `collisions_probe_then_fill` as they stand,
-- and what they try for any keys and any table. Their `Arena::for_test` makes what `new` makes, after
-- assertions that hold at their sizes where both mappings are served.
use coffin.Prelude.{
  ℕ, zero, suc, ◌+◌, ◌*◌, ◌^◌, ◌≤◌, ◌<◌, ◌≡◌, refl, ap, ◌∙◌, Bool, true, false, ◌&&◌, not, none,
  some, List, [], ◌∷◌, arith, length, elem, IsDistinct, word, update, ltb, lt→ltb, ◌==◌,
  if◌then◌else◌,
}
use mathlib.Core.Path.{subst}
use coffin.Platform.{Platform}
use coffin.Registry.{ready, Arena, Entry, new, state_of, insert}
use coffin.Registry.Book
use coffin.Registry.Book.{Book}
use coffin.Registry.Invariant.{IsValid, new-IsValid, insert-IsValid}
use coffin.Registry.Views.{IsFresh-of}
use coffin.Registry.Refine.{Reads, insert_refines}
use coffin.Registry.Run.{blank, insert-sizes, new-Reads, state_of-Reads}

abbrev pub key_entry : ℕ → Entry
key_entry user_ptr = record {
  base = 0;
  total_len = 0;
  user_ptr = user_ptr;
  size = 0;
  align = 0;
  guard_addr = 0;
}

-- Whether a lookup finds READY, and whether it finds nothing.
abbrev pub finds_ready : Arena → ℕ → Bool
finds_ready a key = elim (state_of a key) [ some ready ↦ true | _ ↦ false ]

abbrev pub finds_none : Arena → ℕ → Bool
finds_none a key = elim (state_of a key) [ none ↦ true | some s ↦ false ]

unfoldable pub all_ready : Arena → List ℕ → Bool
all_ready a [] = true
all_ready a (key ∷ keys) = finds_ready a key && all_ready a keys

module _ (os : Platform) (w : os.World) where
  abbrev pub insert_key : ℕ → Arena → Bool × Arena
  insert_key user_ptr a = insert os (key_entry user_ptr) a w

  -- The loop of a test over its keys, each of which is asserted to fit.
  unfoldable pub insert_keys : List ℕ → Arena → Bool × Arena
  insert_keys [] a = (true, a)
  insert_keys (key ∷ keys) a =
      let (fits, b) = insert_key key a in
      let (all_fit, c) = insert_keys keys b in (fits && all_fit, c)

  abbrev pub insert_lookup_roundtrip : Bool
  insert_lookup_roundtrip =
      let keys = 0x10000 ∷ 0x20000 ∷ 0x30000 ∷ 0xDEAD0000 ∷ [] in
      let (all_fit, a) = insert_keys keys (new 16 4) in
      all_fit && (a.live == length keys && (all_ready a keys && finds_none a 0xBEEF0000))

-- `count` keys from one on.
unfoldable pub keys_from : ℕ → ℕ → List ℕ
keys_from key zero = []
keys_from key (suc count) = key ∷ keys_from (suc key) count

module _ (os : Platform) (w : os.World) where
  abbrev pub collisions_probe_then_fill : Bool
  collisions_probe_then_fill =
      let keys = keys_from 0xA000 16 in
      let (all_fit, a) = insert_keys os w keys (new 16 4) in
      all_fit && (not (insert_key os w 0xFFFF a).0 && all_ready a keys)

-- The book after the insertion of keys that fit.
abbrev booked : List ℕ → Book → Book
booked keys b = record b {
  states = λ ptr. if elem ptr keys then some ready else b.states ptr;
  live = b.live + length keys;
}

-- What a step of the loop needs of the arena, and has.
record IsKept (k : ℕ) (cap : ℕ) (a : Arena) (b : Book) : Type 0 where
  pub valid : IsValid k a
  pub reads : Reads a b
  pub size : a.cap ≡ cap

IsKept-alike :
    {k cap : ℕ} {a : Arena} {b b' : Book}
    → IsKept k cap a b
    → ((ptr : ℕ) → b.states ptr ≡ b'.states ptr)
    → b.queue ≡ b'.queue
    → b.live ≡ b'.live
    → IsKept k cap a b'
IsKept-alike r states queue live = record {
  valid = r.valid;
  reads = record {
    states = λ ptr. r.reads.states ptr ∙ states ptr;
    queue = r.reads.queue ∙ queue;
    live = r.reads.live ∙ live;
  };
  size = r.size;
}

insert-eq_room :
    (cap key : ℕ) (b : Book)
    → b.live + length b.queue < cap
    → Book.insert cap key b
      ≡ (true, record b { states = update b.states key (some ready); live = b.live + 1 })
unfolding Book.insert
insert-eq_room cap key b room = rw (lt→ltb _ _ room) refl

insert-fits :
    (cap key : ℕ) (b : Book) → (Book.insert cap key b).0 ≡ ltb (b.live + length b.queue) cap
unfolding Book.insert
insert-fits cap key b = ground arith

module _ (os : Platform) (w : os.World) {k cap : ℕ} where
  insert_key-IsKept :
      (key : ℕ) {a : Arena} {b : Book}
      → IsKept k cap a b
      → b.states key ≡ none
      → b.live + length b.queue < cap
      → ((insert_key os w key a).0 ≡ true)
        × IsKept k cap
            (insert_key os w key a).1
            (record b { states = update b.states key (some ready); live = b.live + 1 })
  insert_key-IsKept key {a} {b} r absent room =
      let (fits, reads) =
        subst
          (λ (q : Bool × Book).
            ((insert_key os w key a).0 ≡ q.0) × Reads (insert_key os w key a).1 q.1)
          (insert-eq_room a.cap key b (rw r.size room))
          (insert_refines os r.valid r.reads w (key_entry key) absent) in
      (
        fits,
        record {
          valid =
              insert-IsValid r.valid os (key_entry key) w
                (IsFresh-of r.valid.indexed key (r.reads.states key ∙ absent));
          reads = reads;
          size = (insert-sizes os a w (key_entry key)).0 ∙ r.size;
        },
      )

  insert_keys-IsKept :
      (keys : List ℕ) {a : Arena} {b : Book}
      → IsKept k cap a b
      → IsDistinct keys
      → ((ptr : ℕ) → elem ptr keys ≡ true → b.states ptr ≡ none)
      → b.live + length b.queue + length keys ≤ cap
      → ((insert_keys os w keys a).0 ≡ true)
        × IsKept k cap (insert_keys os w keys a).1 (booked keys b)
  unfolding insert_keys
  insert_keys-IsKept [] r d absent room = (refl, IsKept-alike r (λ ptr. refl) refl (omega arith))
  insert_keys-IsKept (key ∷ keys) {a} {b} r d absent room =
      let (fits, s) = insert_key-IsKept key r (absent key (ground arith)) (omega arith) in
      let (all_fit, t) =
        insert_keys-IsKept keys s d.1 (λ ptr h. ground (arith, absent ptr, d.0, h)) (omega arith) in
      (rw (fits, all_fit) refl, IsKept-alike t (λ ptr. ground (arith, d.0)) refl (omega arith))

-- Distinct keys, no more than the slots, all fit into a new table of 2 ^ k slots, k at most 63, with a
-- ring of at least one place whose bytes are a word, whatever their hashes. Afterwards the number of
-- live regions is theirs, every one of them is READY and no other pointer is known, and a further key
-- fits exactly if there were fewer keys than slots.
pub insert_keys-finds :
    (os : Platform) (w : os.World) (k q_cap : ℕ) (keys : List ℕ)
    → k ≤ 63
    → 0 < q_cap
    → q_cap * 8 < word
    → IsDistinct keys
    → length keys ≤ 2 ^ k
    → (ptr : ℕ)
    → let (all_fit, a) = insert_keys os w keys (new (2 ^ k) q_cap) in
      (all_fit ≡ true)
      × (a.live ≡ length keys)
      × (state_of a ptr ≡ (if elem ptr keys then some ready else none))
      × (elem ptr keys ≡ false → (insert_key os w ptr a).0 ≡ ltb (length keys) (2 ^ k))
insert_keys-finds os w k q_cap keys hk pos small d room ptr =
    let v = new-IsValid k q_cap hk pos small in
    let (all_fit, r) =
      insert_keys-IsKept os w keys (record { valid = v; reads = new-Reads v; size = refl }) d
        (λ p h. refl) (omega arith) in
    (
      all_fit,
      omega (arith, r.reads.live),
      state_of-Reads r.reads ptr,
      λ h.
          (insert_refines os r.valid r.reads w (key_entry ptr) (rw h refl)).0
          ∙ insert-fits _ ptr (booked keys blank)
          ∙ rw r.size (ap (λ n. ltb n (2 ^ k)) (omega arith)),
    )
