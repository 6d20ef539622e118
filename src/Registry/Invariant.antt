-- ===== src/Registry/Invariant.antt =====
-- The invariant of the arena, and its preservation by `insert`.
use coffin.Prelude.{
  ℕ, ◌*◌, ◌^◌, ◌≤◌, ◌<◌, ◌≡◌, refl, sym, true, some, List, arith, Option-cases, inl, inr, elem,
  IsDistinct, count, count-le, count-pos, count-eq-zero, pow-pos, count-update, update, word,
  wrapping_add,
}
use native.Mathlib.Nat.{pow-le-pow_right}
use coffin.Platform.{Platform}
use coffin.Registry.{
  ready, is_ready, is_freed, Region, Arena, new, home, find_vacant, Entry, publish, capture_ips,
  insert,
}
use coffin.Registry.Probe.{home-lt, find_vacant-some}
use coffin.Registry.Lookup.{IsIndexed, IsFresh, publish-IsIndexed}
use coffin.Registry.Ring.{IsRing, queued, quarantine}

abbrev pub count_ready : (ℕ → Region) → ℕ → ℕ
count_ready = count (λ (r : Region). is_ready r.state)

abbrev pub count_freed : (ℕ → Region) → ℕ → ℕ
count_freed = count (λ (r : Region). is_freed r.state)

-- The slots marked FREED are those in the quarantine, each of which stands there once.
pub record IsQueue (slots : ℕ → Region) (cap : ℕ) (q : List ℕ) : Type 0 where
  pub listed : (i : ℕ) → i < cap → is_freed (slots i).state ≡ elem i q
  pub inside : (i : ℕ) → elem i q ≡ true → i < cap
  pub distinct : IsDistinct q

pub record IsValid (k : ℕ) (a : Arena) : Type 0 where
  pub indexed : IsIndexed k a.slots a.cap a.mask
  pub queue : IsQueue a.slots a.cap (quarantine a)
  pub live_count : a.live ≡ count_ready a.slots a.cap
  pub freed_count : a.q_len ≡ count_freed a.slots a.cap
  pub ring : IsRing a.q_cap a.q_tail a.q_len

-- A new arena of 2 ^ k slots, k at most 63, is valid if its ring has a place and the number of the
-- ring's bytes is a word.
pub new-IsValid :
    (k q_cap : ℕ) → k ≤ 63 → 0 < q_cap → q_cap * 8 < word → IsValid k (new (2 ^ k) q_cap)
unfolding queued
new-IsValid k q_cap hk pos small = record {
  indexed = record {
    table = record {
      cap_pow = refl;
      mask_low = omega (arith, pow-pos k, pow-le-pow_right {n = 2} (omega arith) hk);
      exponent = hk;
    };
    found = λ i h s. cc s;
  };
  queue = record { listed = λ i h. refl; inside = λ i h. cc h; distinct = tt };
  live_count = sym (count-eq-zero (λ (r : Region). is_ready r.state) _ (2 ^ k) (λ i h. refl));
  freed_count = sym (count-eq-zero (λ (r : Region). is_freed r.state) _ (2 ^ k) (λ i h. refl));
  ring = record { small = small; tail_in = pos; len_in = omega arith };
}

module _ {k : ℕ} {a : Arena} (v : IsValid k a) where
  pub cap-le : a.cap ≤ 2 ^ 63
  cap-le =
      rw v.indexed.table.cap_pow (pow-le-pow_right {n = 2} (omega arith) v.indexed.table.exponent)

  -- A live slot is counted, and no count wraps.
  pub live-bounds :
      (i : ℕ) → i < a.cap → (a.slots i).state ≡ ready → (0 < a.live) × (a.live ≤ 2 ^ 63)
  live-bounds i h s = omega (
    arith,
    cap-le,
    v.live_count,
    count-le (λ (r : Region). is_ready r.state) a.slots a.cap,
    count-pos (λ (r : Region). is_ready r.state) a.slots i a.cap h (rw s),
  )

  module _ (os : Platform) (e : Entry) (w : os.World) where
    -- `insert` of a pointer that is not tracked keeps a valid arena valid, also if the table is full.
    pub insert-IsValid : IsFresh a.slots a.cap e.user_ptr → IsValid k (insert os e a w).1
    unfolding insert
    insert-IsValid fresh =
        elim (Option-cases (find_vacant a.slots a.mask a.cap (home a.mask e.user_ptr))) [
          | inl full ↦ rw (full, insert) v
          | inr (i, at) ↦ rw (at, insert) (stored i at)
        ]
      where
        stored :
            (i : ℕ)
            → find_vacant a.slots a.mask a.cap (home a.mask e.user_ptr) ≡ some i
            → IsValid k (record a {
              slots = update a.slots i (publish e (capture_ips (os.trace w)) (a.slots i));
              live = wrapping_add a.live 1;
            })
        stored i at =
            let t =
              find_vacant-some v.indexed.table a.slots a.cap (home a.mask e.user_ptr)
                (home-lt v.indexed.table e.user_ptr) at in
            record {
              indexed = publish-IsIndexed v.indexed i _ refl fresh at;
              queue = record {
                listed = λ j h. ground (arith, v.queue.listed j h, t);
                inside = v.queue.inside;
                distinct = v.queue.distinct;
              };
              live_count = ground (
                arith,
                v.live_count,
                t,
                cap-le,
                count-le (λ (r : Region). is_ready r.state) a.slots a.cap,
                count-update (λ (r : Region). is_ready r.state) a.slots i
                    (publish e (capture_ips (os.trace w)) (a.slots i)) a.cap t.0,
              );
              freed_count = ground (
                arith,
                v.freed_count,
                t,
                count-update (λ (r : Region). is_freed r.state) a.slots i
                    (publish e (capture_ips (os.trace w)) (a.slots i)) a.cap t.0,
              );
              ring = v.ring;
            }
