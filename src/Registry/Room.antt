-- ===== src/Registry/Room.antt =====
-- When `insert` finds a slot: exactly while the live and the quarantined slots are fewer than all.
use coffin.Prelude.{
  ℕ, zero, suc, ◌+◌, ◌≤◌, ◌<◌, ◌≡◌, refl, sym, true, none, ◌⊎◌, inl, inr, arith, Option-cases, ltb,
  lt→ltb, ltb-false, update, wrapping_add, count, count-pos, count-eq-zero, false,
}
use coffin.Platform.{Platform}
use coffin.Registry.{
  is_vacant, Region, Arena, Entry, home, find_vacant, insert, publish, capture_ips,
}
use coffin.Registry.Probe.{home-lt, find_vacant-some, find_vacant-none}
use coffin.Registry.Invariant.{IsValid, count_ready, count_freed}

abbrev count_vacant : (ℕ → Region) → ℕ → ℕ
count_vacant = count (λ (r : Region). is_vacant r.state)

-- Every slot is live, quarantined or vacant.
kinds :
    (slots : ℕ → Region) (n : ℕ)
    → count_ready slots n + count_freed slots n + count_vacant slots n ≡ n
unfolding count
kinds slots zero = omega arith
kinds slots (suc n) = ground (arith, kinds slots n)

module _ {k : ℕ} {a : Arena} (v : IsValid k a) where
  -- The tracked slots fit the table.
  pub tracked-le : a.live + a.q_len ≤ a.cap
  tracked-le = omega (arith, kinds a.slots a.cap, v.live_count, v.freed_count)

  pub full_of_none :
      (start : ℕ)
      → start < a.cap
      → find_vacant a.slots a.mask a.cap start ≡ none
      → a.cap ≤ a.live + a.q_len
  full_of_none start begins full = omega (
    arith,
    kinds a.slots a.cap,
    v.live_count,
    v.freed_count,
    count-eq-zero (λ (r : Region). is_vacant r.state) a.slots a.cap
        (λ i h. find_vacant-none v.indexed.table a.slots start i begins full h),
  )

  pub room_of_vacant :
      (i : ℕ) → i < a.cap → is_vacant (a.slots i).state ≡ true → a.live + a.q_len < a.cap
  room_of_vacant i h s = omega (
    arith,
    kinds a.slots a.cap,
    v.live_count,
    v.freed_count,
    count-pos (λ (r : Region). is_vacant r.state) a.slots i a.cap h s,
  )

  module _ (os : Platform) (e : Entry) (w : os.World) where
    -- With room, `insert` stores the entry in a vacant slot and changes no other.
    pub insert-stores :
        a.live + a.q_len < a.cap
        → (i : ℕ) × (i < a.cap)
          × (is_vacant (a.slots i).state ≡ true)
          × (insert os e a w ≡ (
            true,
            record a {
              slots = update a.slots i (publish e (capture_ips (os.trace w)) (a.slots i));
              live = wrapping_add a.live 1;
            },
          ))
    unfolding insert
    insert-stores room =
        elim (Option-cases (find_vacant a.slots a.mask a.cap (home a.mask e.user_ptr))) [
          | inl full ↦
              let h = full_of_none _ (home-lt v.indexed.table e.user_ptr) full in
              absurd (omega arith)
          | inr (i, at) ↦
              let t =
                find_vacant-some v.indexed.table a.slots a.cap _
                  (home-lt v.indexed.table e.user_ptr) at in
              (i, t.0, t.1, rw (at, insert))
        ]

    -- Without room, `insert` changes nothing and says so.
    pub insert-full : a.cap ≤ a.live + a.q_len → insert os e a w ≡ (false, a)
    unfolding insert
    insert-full full =
        elim (Option-cases (find_vacant a.slots a.mask a.cap (home a.mask e.user_ptr))) [
          | inl at ↦ rw (at, insert) refl
          | inr (i, at) ↦
              let t =
                find_vacant-some v.indexed.table a.slots a.cap _
                  (home-lt v.indexed.table e.user_ptr) at in
              let h = room_of_vacant i t.0 t.1 in absurd (omega arith)
        ]

    -- On a valid arena `insert` returns true exactly if the live and the quarantined regions are fewer
    -- than the slots; it returns true, or leaves the arena as it is.
    pub insert-room :
        ((insert os e a w).0 ≡ ltb (a.live + a.q_len) a.cap)
        × (((insert os e a w).0 ≡ true) ⊎ ((insert os e a w).1 ≡ a))
    unfolding insert
    insert-room = elim (Option-cases (find_vacant a.slots a.mask a.cap start)) [
      | inl full ↦
          rw (full, insert) (sym (ltb-false _ _ (full_of_none start begins full)), inr refl)
      | inr (i, at) ↦
          let t = find_vacant-some v.indexed.table a.slots a.cap start begins at in
          rw (at, insert) (sym (lt→ltb _ _ (room_of_vacant i t.0 t.1)), inl refl)
    ]
      where
        start : ℕ
        start = home a.mask e.user_ptr

        begins : start < a.cap
        begins = home-lt v.indexed.table e.user_ptr
