-- ===== src/Registry/Quarantine.antt =====
-- `free` keeps the arena valid: the freed slot joins the quarantine, and the oldest leaves a full one.
use coffin.Prelude.{
  ℕ, suc, ◌+◌, ◌-◌, ◌%◌, ◌<◌, ◌≡◌, ◌≢◌, refl, sym, ◌∙◌, false, [], ◌∷◌, ◌++◌, arith, to_nat,
  count-le, count-update, update, ==_iff, ==_false, wrapping_add,
}
use mathlib.Core.Path.{subst}
use coffin.Platform.{Platform}
use coffin.Registry.{
  ready, freed, tomb, is_ready, is_freed, Region, Arena, capture_ips, quarantine_push, seal,
  is_vacant,
}
use coffin.Registry.Lookup.{IsIndexed, restate-IsIndexed, bury-IsIndexed}
use coffin.Registry.Ring.{
  queued, quarantine, IsRing, enqueue, push_full, push_room, room_back, full_front,
}
use native.Mathlib.Decide.{ℕ_discrete}
use coffin.Registry.Invariant.{IsQueue, IsValid, count_ready, count_freed, cap-le}
use coffin.Registry.Pending.{IsPending, mark-IsPending, room-IsQueue, full-IsQueue}

module _ (os : Platform) (a : Arena) (i : ℕ) (w : os.World)
    (r : IsRing a.q_cap a.q_tail a.q_len) where
  -- On an arena whose ring cursors are in range, `quarantine_push` is a push on a queue of at most
  -- `q_cap` slots, which a full queue's oldest slot leaves.
  pub quarantine-push : quarantine (quarantine_push os i a w).0 ≡ enqueue a.q_cap (quarantine a) i
  unfolding quarantine_push
  quarantine-push = elim (ℕ_discrete a.q_len a.q_cap) [
    | yes e ↦ ground (arith, push_full a.ring a.q_cap a.q_tail a.q_len i r)
    | no ne ↦ ground (arith, push_room a.ring a.q_cap a.q_tail a.q_len i r)
  ]

-- The arena after the first half of `free`.
pub record IsSealed (k : ℕ) (a : Arena) (i : ℕ) : Type 0 where
  pub indexed : IsIndexed k a.slots a.cap a.mask
  pub pending : IsPending a.slots a.cap (quarantine a) i
  pub live_count : a.live ≡ count_ready a.slots a.cap
  pub freed_count : suc a.q_len ≡ count_freed a.slots a.cap
  pub ring : IsRing a.q_cap a.q_tail a.q_len

count_ready-update :
    (slots : ℕ → Region) (i : ℕ) (r : Region) (n : ℕ)
    → i < n
    → count_ready (update slots i r) n + to_nat (is_ready (slots i).state)
      ≡ count_ready slots n + to_nat (is_ready r.state)
count_ready-update = count-update (λ r. is_ready r.state)

count_freed-update :
    (slots : ℕ → Region) (i : ℕ) (r : Region) (n : ℕ)
    → i < n
    → count_freed (update slots i r) n + to_nat (is_freed (slots i).state)
      ≡ count_freed slots n + to_nat (is_freed r.state)
count_freed-update = count-update (λ r. is_freed r.state)

abbrev pub entombed : Region → Region
entombed slot = record slot { state = tomb }

-- The arena that a push leaves, into a full ring and into one with room.
abbrev pub pushed_full : Arena → ℕ → Arena
pushed_full a i = record a {
  slots = update a.slots (a.ring a.q_tail) (entombed (a.slots (a.ring a.q_tail)));
  evictions = wrapping_add a.evictions 1;
  ring = update a.ring a.q_tail i;
  q_tail = wrapping_add a.q_tail 1 % a.q_cap;
}

abbrev pub pushed_room : Arena → ℕ → Arena
pushed_room a i = record a {
  ring = update a.ring (wrapping_add a.q_tail a.q_len % a.q_cap) i;
  q_len = wrapping_add a.q_len 1;
}

module _ (k : ℕ) (a : Arena) (i : ℕ) (p : IsSealed k a i) where
  pushed_room-IsValid : a.q_len ≢ a.q_cap → IsValid k (pushed_room a i)
  pushed_room-IsValid ne = record {
    indexed = p.indexed;
    queue =
        subst (IsQueue a.slots a.cap) (sym (room_back a.ring a.q_cap a.q_tail a.q_len i p.ring ne))
          (room-IsQueue a.slots a.cap (quarantine a) i p.pending);
    live_count = p.live_count;
    freed_count = bump ∙ p.freed_count;
    ring = omega (arith, p.ring);
  }
    where
      bump : wrapping_add a.q_len 1 ≡ suc a.q_len
      bump = omega (arith, p.ring)

  -- The oldest slot of a full ring: tracked, and another than the one that is pushed.
  front :
      a.q_len ≡ a.q_cap
      → IsPending a.slots a.cap
          (a.ring a.q_tail ∷ queued a.ring a.q_cap (a.q_tail + 1) (a.q_len - 1))
          i
  front e =
      subst (λ q. IsPending a.slots a.cap q i)
        (full_front a.ring a.q_cap a.q_tail a.q_len i p.ring e).0 p.pending

  pub oldest-ne : a.q_len ≡ a.q_cap → a.ring a.q_tail ≢ i
  oldest-ne e = ground (arith, (front e).waiting)

  pub oldest-tracked :
      a.q_len ≡ a.q_cap
      → (a.ring a.q_tail < a.cap) × (is_vacant (a.slots (a.ring a.q_tail)).state ≡ false)
  oldest-tracked e = (inside, ground (arith, (front e).listed oldest inside, oldest-ne e))
    where
      oldest : ℕ
      oldest = a.ring a.q_tail

      inside : oldest < a.cap
      inside = ground (arith, (front e).inside oldest)

  pushed_full-IsValid : a.q_len ≡ a.q_cap → IsValid k (pushed_full a i)
  pushed_full-IsValid e = record {
    indexed = bury-IsIndexed p.indexed (a.ring a.q_tail) _ refl;
    queue =
        subst (IsQueue (pushed_full a i).slots a.cap) (sym fronts.1)
          (full-IsQueue a.slots a.cap (a.ring a.q_tail) _ i _ pending refl);
    live_count =
        p.live_count
        ∙ ground (
          arith,
          count_ready-update a.slots oldest (entombed (a.slots oldest)) a.cap,
          pending.inside oldest,
          pending.listed oldest,
          pending.waiting,
        );
    freed_count = ground (
      arith,
      p.freed_count,
      count_freed-update a.slots oldest (entombed (a.slots oldest)) a.cap,
      pending.inside oldest,
      pending.listed oldest,
      pending.waiting,
    );
    ring = omega (arith, p.ring);
  }
    where
      oldest : ℕ
      oldest = a.ring a.q_tail

      fronts :
          (quarantine a ≡ a.ring a.q_tail ∷ queued a.ring a.q_cap (a.q_tail + 1) (a.q_len - 1))
          × (quarantine (pushed_full a i)
              ≡ queued a.ring a.q_cap (a.q_tail + 1) (a.q_len - 1) ++ i ∷ [])
      fronts = full_front a.ring a.q_cap a.q_tail a.q_len i p.ring e

      pending :
          IsPending a.slots a.cap
            (a.ring a.q_tail ∷ queued a.ring a.q_cap (a.q_tail + 1) (a.q_len - 1))
            i
      pending = subst (λ q. IsPending a.slots a.cap q i) fronts.0 p.pending

module _ (os : Platform) (i : ℕ) (w : os.World) where
  pub seal-IsSealed :
      {k : ℕ} {a : Arena} (total : ℕ)
      → IsValid k a
      → i < a.cap
      → (a.slots i).state ≡ ready
      → IsSealed k (seal os i total a w).0 i
  unfolding seal
  seal-IsSealed {a} total v h s = record {
    indexed = restate-IsIndexed v.indexed i _ (rw s) refl refl;
    pending = mark-IsPending a.slots a.cap (quarantine a) i _ v.queue h (rw s) refl;
    live_count = ground (
      arith,
      v.live_count,
      s,
      cap-le v,
      count-le (λ (r : Region). is_ready r.state) a.slots a.cap,
      count_ready-update a.slots i
          (record (a.slots i) { state = freed; free_ips = capture_ips (os.trace w) }) a.cap h,
    );
    freed_count = ground (
      arith,
      v.freed_count,
      s,
      count_freed-update a.slots i
          (record (a.slots i) { state = freed; free_ips = capture_ips (os.trace w) }) a.cap h,
    );
    ring = v.ring;
  }

  pub push-full : (a : Arena) → a.q_len ≡ a.q_cap → (quarantine_push os i a w).0 ≡ pushed_full a i
  unfolding quarantine_push
  push-full a e = rw ((==_iff a.q_len a.q_cap).1 e, quarantine_push)

  pub push-room : (a : Arena) → a.q_len ≢ a.q_cap → (quarantine_push os i a w).0 ≡ pushed_room a i
  unfolding quarantine_push
  push-room a ne = rw (==_false a.q_len a.q_cap ne, quarantine_push)

  -- What a push does to memory: a full ring gives the oldest region back.
  pub push-full_world :
      (a : Arena)
      → a.q_len ≡ a.q_cap
      → let oldest = a.slots (a.ring a.q_tail) in
        (quarantine_push os i a w).1 ≡ os.munmap oldest.base oldest.total_len w
  unfolding quarantine_push
  push-full_world a e = rw ((==_iff a.q_len a.q_cap).1 e, quarantine_push) refl

  pub push-room_world : (a : Arena) → a.q_len ≢ a.q_cap → (quarantine_push os i a w).1 ≡ w
  unfolding quarantine_push
  push-room_world a ne = rw (==_false a.q_len a.q_cap ne, quarantine_push) refl

  pub push-IsValid : {k : ℕ} {a : Arena} → IsSealed k a i → IsValid k (quarantine_push os i a w).0
  push-IsValid {k} {a} p = elim (ℕ_discrete a.q_len a.q_cap) [
    | yes e ↦ rw (push-full a e) (pushed_full-IsValid k a i p e)
    | no ne ↦ rw (push-room a ne) (pushed_room-IsValid k a i p ne)
  ]
