-- ===== src/Registry/Release.antt =====
-- `free` does what the book does.
use coffin.Prelude.{
  ℕ, ◌+◌, ◌-◌, ◌<◌, ◌≡◌, ◌≢◌, refl, sym, ap, ◌∙◌, false, none, some, inl, inr, arith, Bool-cases,
  if◌then◌else◌, ◌==◌, ==_iff, ==_false, List, [], ◌∷◌, ◌++◌, length, update,
}
use mathlib.Core.Path.{ap₂}
use mathlib.Core.List.{map, map-append}
use native.Mathlib.Decide.{ℕ_discrete}
use coffin.Platform.{Platform}
use coffin.Registry.{ready, freed, is_freed, is_vacant, Arena, seal, quarantine_push, free}
use coffin.Registry.Book
use coffin.Registry.Book.{Book}
use coffin.Registry.Lookup.{Tracks, Tracks-unique, bury-IsIndexed}
use coffin.Registry.Ring.{quarantine, queued, length-queued, full_front, room_back}
use coffin.Registry.Invariant.{IsValid, live-bounds}
use coffin.Registry.Quarantine.{
  IsSealed, pushed_full, pushed_room, seal-IsSealed, push-full, push-room, oldest-tracked,
  oldest-ne,
}
use coffin.Registry.Views.{
  Tracks-cases, state_at, state_at-some, state_at-none, state-restate, state-bury,
}
use coffin.Registry.Free.{ready_of, free-absent, free-freed, free-ready}
use coffin.Registry.Refine.{key_of, keys-congr, length-map, Reads}

-- The arena between the two halves of `free` reads as a book in which the key is already marked, and
-- is not yet in the queue.
record IsMarked (a : Arena) (b : Book) (ptr : ℕ) : Type 0 where
  states : (p : ℕ) → state_at a.slots a.cap a.mask p ≡ (if ptr == p then some freed else b.states p)
  queue : map (key_of a.slots) (quarantine a) ≡ b.queue
  live : a.live ≡ b.live - 1

module _ {k : ℕ} {a : Arena} {i : ℕ} (p : IsSealed k a i) {b : Book} {ptr : ℕ}
    (key : key_of a.slots i ≡ ptr) (m : IsMarked a b ptr) where
  size : length b.queue ≡ a.q_len
  size = rw (← m.queue, length-map, length-queued)

  room-Reads : a.q_len ≢ a.q_cap → Reads (pushed_room a i) (Book.release a.q_cap ptr b)
  unfolding Book.release
  room-Reads ne =
      rw (size, ==_false a.q_len a.q_cap ne, Book.release)
        (record {
          states = m.states;
          queue =
              ap (map (key_of a.slots)) (room_back a.ring a.q_cap a.q_tail a.q_len i p.ring ne)
              ∙ map-append (key_of a.slots) (quarantine a) (i ∷ [])
              ∙ ap₂ (λ q (x : ℕ). q ++ x ∷ []) m.queue key;
          live = m.live;
        })

  -- The oldest slot of a full quarantine, and the others.
  abbrev oldest : ℕ
  oldest = a.ring a.q_tail

  abbrev others : List ℕ
  others = queued a.ring a.q_cap (a.q_tail + 1) (a.q_len - 1)

  full-Reads : a.q_len ≡ a.q_cap → Reads (pushed_full a i) (Book.release a.q_cap ptr b)
  unfolding Book.release
  full-Reads e =
      rw (size, (==_iff a.q_len a.q_cap).1 e, Book.release, forgotten)
        (record {
          states = λ q.
              state-bury p.indexed oldest _ (bury-IsIndexed p.indexed oldest _ refl)
                (key_of a.slots oldest) (tracked.0, tracked.1, refl) refl q
              ∙ ground (arith, m.states q, apart);
          queue =
              keys-congr _ (key_of a.slots) (quarantine (pushed_full a i)) (λ j h. ground arith)
              ∙ ap (map (key_of a.slots)) fronts.1
              ∙ map-append (key_of a.slots) others (i ∷ [])
              ∙ ap (λ x. map (key_of a.slots) others ++ x ∷ []) key;
          live = m.live;
        })
    where
      fronts : (quarantine a ≡ oldest ∷ others) × (quarantine (pushed_full a i) ≡ others ++ i ∷ [])
      fronts = full_front a.ring a.q_cap a.q_tail a.q_len i p.ring e

      keys : b.queue ≡ key_of a.slots oldest ∷ map (key_of a.slots) others
      keys = sym m.queue ∙ ap (map (key_of a.slots)) fronts.0

      forgotten : Book.forget b.queue b ≡ record b {
        states = update b.states (key_of a.slots oldest) none;
        queue = map (key_of a.slots) others;
      }
      forgotten = ap (λ q. Book.forget q b) keys

      tracked : (oldest < a.cap) × (is_vacant (a.slots oldest).state ≡ false)
      tracked = oldest-tracked k a i p e

      apart : key_of a.slots oldest ≢ ptr
      apart same = oldest-ne k a i p e (
          Tracks-unique p.indexed ptr oldest i (tracked.0, tracked.1, same)
            (p.pending.in_table, ground (arith, p.pending.marked), key))

module _ (os : Platform) {k : ℕ} {a : Arena} (v : IsValid k a) {b : Book} (reads : Reads a b)
    (ptr total : ℕ) (w : os.World) where
  seal-IsMarked :
      (i : ℕ)
      → Tracks a.slots a.cap ptr i
      → (a.slots i).state ≡ ready
      → IsMarked (seal os i total a w).0 b ptr
  unfolding seal
  seal-IsMarked i t s = record {
    states = λ p.
        state-restate v.indexed i _ (seal-IsSealed os i w total v t.0 s).indexed t.0 refl refl p
        ∙ ground (arith, reads.states p, t.2);
    queue = keys-congr _ (key_of a.slots) (quarantine a) (λ j h. ground arith) ∙ reads.queue;
    live = omega (arith, reads.live, live-bounds v i t.0 s);
  }

  push-Reads :
      (i : ℕ)
      → Tracks a.slots a.cap ptr i
      → (a.slots i).state ≡ ready
      → (w' : os.World)
      → Reads (quarantine_push os i (seal os i total a w).0 w').0 (Book.release a.q_cap ptr b)
  unfolding seal
  push-Reads i t s w' = elim (ℕ_discrete a.q_len a.q_cap) [
    | yes e ↦ rw (push-full os i w' (seal os i total a w).0 e) (
        full-Reads (seal-IsSealed os i w total v t.0 s) (ground (arith, t.2)) (seal-IsMarked i t s)
          e)
    | no ne ↦ rw (push-room os i w' (seal os i total a w).0 ne) (
        room-Reads (seal-IsSealed os i w total v t.0 s) (ground (arith, t.2)) (seal-IsMarked i t s)
          ne)
  ]

  -- On a valid arena that reads as a book, `free` of any pointer returns what the book's free returns,
  -- and leaves an arena that reads as the book left.
  pub free_refines :
      let (r, a', w') = free os ptr total a w in
      let (r', b') = Book.free a.q_cap ptr b in (r ≡ r') × Reads a' b'
  unfolding Book.free
  free_refines = elim (Tracks-cases v.indexed ptr) [
    | inl f ↦
        rw
          (
            free-absent os v ptr total w f,
            Book.free,
            ← reads.states ptr,
            state_at-none v.indexed ptr f,
          )
          (refl, reads)
    | inr (i, t) ↦ elim (Bool-cases (is_freed (a.slots i).state)) [
      | inl s ↦
          let g : (a.slots i).state ≡ freed = ground arith in
          rw
            (
              free-freed os v ptr total w i t g,
              Book.free,
              ← reads.states ptr,
              state_at-some v.indexed ptr i t,
              g,
            )
            (refl, reads)
      | inr s ↦
          let g = ready_of _ t.1 s in
          rw
            (
              free-ready os v ptr total w i t g,
              Book.free,
              ← reads.states ptr,
              state_at-some v.indexed ptr i t,
              g,
            )
            (refl, push-Reads i t g _)
    ]
  ]
