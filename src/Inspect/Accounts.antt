-- ===== src/Inspect/Accounts.antt =====
-- What the inspection API says after each call.
use coffin.Prelude.{
  ℕ, ◌+◌, ◌<◌, ◌≡◌, refl, ap, ◌∙◌, true, false, none, some, inl, inr, arith, Bool-cases,
  Option-cases, word, ◌==◌, if◌then◌else◌, length, ◌⊎◌, update_self,
}
use coffin.Platform.{Platform}
use coffin.Registry.{
  Arena, Entry, is_freed, state_of, find_locked, home, find_vacant, insert, free, seal, evict,
  quarantine_push, ready, freed,
}
use coffin.Registry.Invariant.{IsValid, live-bounds, cap-le}
use coffin.Registry.Room.{tracked-le, room_of_vacant}
use coffin.Registry.Lookup.{Tracks}
use coffin.Registry.Views.{Tracks-cases, state_at, state_at-some, state_at-none}
use coffin.Registry.Free.{ready_of, free-absent, free-freed, free-ready}
use coffin.Registry.Probe.{home-lt, find_vacant-some}
use mathlib.Core.List.{map}
use coffin.Registry.Book
use coffin.Registry.Book.{Book}
use coffin.Registry.Ring.{quarantine}
use coffin.Registry.Refine.{Reads, key_of}
use coffin.Registry.Release.{free_refines}
use coffin.Inspect.{slot_state, state_name, live_count, eviction_count, quarantine_len}

-- All regions that were ever tracked.
abbrev pub total : Arena → ℕ
total a = live_count a + quarantine_len a + eviction_count a

-- A ready key of a book is freed by its `free`.
book-free :
    (bound ptr : ℕ) (b : Book)
    → b.states ptr ≡ some ready
    → ((Book.free bound ptr b).0 ≡ some true) × ((Book.free bound ptr b).1.states ptr ≡ some freed)
unfolding Book.free Book.release
book-free bound ptr b e =
    let c = if length b.queue == bound then Book.forget b.queue b else b in
    rw (Book.free, e, Book.release) (refl, update_self c.states (some freed) {i = ptr} refl)

-- What the push of a slot into the quarantine adds to it, or evicts from it.
push-total :
    (os : Platform) (idx : ℕ) (b : Arena) (w : os.World)
    → b.q_len + 1 < word
    → b.evictions + 1 < word
    → let c = (quarantine_push os idx b w).0 in
      (c.live ≡ b.live) × (c.q_len + c.evictions ≡ b.q_len + b.evictions + 1)
unfolding quarantine_push evict
push-total os idx b w len evictions = ground arith

seal-total :
    (os : Platform) (idx len : ℕ) (a : Arena) (w : os.World)
    → 0 < a.live
    → a.live < word
    → let b = (seal os idx len a w).0 in
      (b.live + 1 ≡ a.live) × (b.q_len ≡ a.q_len) × (b.evictions ≡ a.evictions)
unfolding seal
seal-total os idx len a w pos small = ground arith

module _ (os : Platform) {k : ℕ} {a : Arena} (v : IsValid k a) (w : os.World) where
  -- A live region that is freed goes into quarantine, from which another may be evicted.
  pub free-live :
      (ptr len i : ℕ)
      → Tracks a.slots a.cap ptr i
      → (a.slots i).state ≡ ready
      → a.evictions + 1 < word
      → let b = (free os ptr len a w).1 in
        (b.live + 1 ≡ a.live) × (b.q_len + b.evictions ≡ a.q_len + a.evictions + 1)
  free-live ptr len i t r room =
      let (b, w') = seal os i len a w in
      let live = live-bounds v i t.0 r in
      let sealed = seal-total os i len a w live.0 (omega (arith, live)) in
      let fits = tracked-le v in
      let pushed =
        push-total os i b w' (omega (arith, sealed, fits, cap-le v)) (omega (arith, sealed)) in
      rw (free-ready os v ptr len w i t r)
        (omega (arith, sealed, pushed), omega (arith, sealed, pushed))

  -- `free` of any pointer in a valid arena keeps the sum of the live regions, of those in quarantine
  -- and of those evicted, as long as the count of the last does not wrap.
  pub free-total : (ptr len : ℕ) → a.evictions + 1 < word → total (free os ptr len a w).1 ≡ total a
  free-total ptr len room = elim (Tracks-cases v.indexed ptr) [
    | inl f ↦ rw (free-absent os v ptr len w f) refl
    | inr (i, t) ↦ elim (Bool-cases (is_freed (a.slots i).state)) [
      | inl s ↦ rw (free-freed os v ptr len w i t (ground arith)) refl
      | inr s ↦ omega (arith, free-live ptr len i t (ready_of _ t.1 s) room)
    ]
  ]

  -- `insert` into a valid arena, if it returns `true`, adds one region to that sum.
  pub insert-total :
      (e : Entry) → (insert os e a w).0 ≡ true → total (insert os e a w).1 ≡ total a + 1
  unfolding insert
  insert-total e ok =
      elim (Option-cases (find_vacant a.slots a.mask a.cap (home a.mask e.user_ptr))) [
        | inl full ↦
            let refused : (insert os e a w).0 ≡ false = rw (full, insert) refl in cc (refused, ok)
        | inr (i, at) ↦
            let t =
              find_vacant-some v.indexed.table a.slots a.cap (home a.mask e.user_ptr)
                (home-lt v.indexed.table e.user_ptr) at in
            let room = room_of_vacant v i t.0 t.1 in rw (at, insert) (omega (arith, room, cap-le v))
      ]

  -- The arena as a book.
  abbrev own_book : Book
  own_book = record {
    states = state_at a.slots a.cap a.mask;
    queue = map (key_of a.slots) (quarantine a);
    live = a.live;
  }

  own_book-Reads : Reads a own_book
  own_book-Reads = record { states = λ ptr. refl; queue = refl; live = refl }

  pub slot_state-ready :
      (ptr i : ℕ)
      → Tracks a.slots a.cap ptr i
      → (a.slots i).state ≡ ready
      → slot_state a ptr ≡ some "ready"
  unfolding slot_state state_of find_locked
  slot_state-ready ptr i t r = ap state_name (state_at-some v.indexed ptr i t ∙ ap some r)

  -- In a valid arena, what `slot_state` says of a pointer is what `free` then does: a "ready" one is
  -- freed, and "freed" afterwards; a "freed" one is a double free; any other is not ours, and the arena
  -- stays as it is in the last two cases.
  pub slot_state-free :
      (ptr len : ℕ)
      → ((slot_state a ptr ≡ some "ready")
          × ((free os ptr len a w).0 ≡ some true)
          × (slot_state (free os ptr len a w).1 ptr ≡ some "freed"))
        ⊎ ((slot_state a ptr ≡ some "freed") × (free os ptr len a w ≡ (some false, a, w)))
        ⊎ ((slot_state a ptr ≡ none) × (free os ptr len a w ≡ (none, a, w)))
  unfolding slot_state state_of find_locked
  slot_state-free ptr len = elim (Tracks-cases v.indexed ptr) [
    | inl f ↦
        inr (inr (ap state_name (state_at-none v.indexed ptr f), free-absent os v ptr len w f))
    | inr (i, t) ↦
        let at = state_at-some v.indexed ptr i t in
        elim (Bool-cases (is_freed (a.slots i).state)) [
          | inl s ↦
              let is : (a.slots i).state ≡ freed = ground arith in
              inr (inl (ap state_name (at ∙ ap some is), free-freed os v ptr len w i t is))
          | inr s ↦
              let is = ready_of _ t.1 s in
              let (answer, after) = free_refines os v own_book-Reads ptr len w in
              let (freed_0, freed_1) = book-free a.q_cap ptr own_book (at ∙ ap some is) in
              inl (
                ap state_name (at ∙ ap some is),
                answer ∙ freed_0,
                ap state_name (after.states ptr ∙ freed_1),
              )
        ]
  ]
