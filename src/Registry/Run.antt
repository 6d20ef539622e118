-- ===== src/Registry/Run.antt =====
-- Whole sequences of calls: no client tells the arena from the book.
use coffin.Prelude.{
  ℕ, ◌*◌, ◌^◌, ◌≤◌, ◌<◌, ◌≡◌, refl, ap, ◌∙◌, Bool, Option, none, arith, List, [], ◌∷◌, length, word,
}
use mathlib.Core.Path.{subst, ap₂}
use coffin.Platform.{Platform}
use coffin.Registry.{SlotState, Arena, Entry, new, find_locked, state_of, insert, free}
use coffin.Registry.Book
use coffin.Registry.Book.{Book}
use coffin.Registry.Invariant.{IsValid, new-IsValid, insert-IsValid}
use coffin.Registry.Ring.{queued, length-queued}
use coffin.Registry.Views.{state_at-none, IsFresh-of}
use coffin.Registry.Free.{free-IsValid}
use coffin.Registry.Refine.{length-map, Reads, insert_refines}
use coffin.Registry.Release.{free_refines}

-- The calls of a client that write.
pub data Call : Type 0 where
  put : Entry → Call
  release : ℕ → ℕ → Call

-- All its calls, with `state_of` and the numbers of live and quarantined regions, and what each returns.
pub data Request : Type 0 where
  calling : Call → Request
  look : ℕ → Request
  counts : Request

pub data Answer : Type 0 where
  inserted : Bool → Answer
  released : Option Bool → Answer
  looked : Option SlotState → Answer
  counted : ℕ → ℕ → Answer

module _ (os : Platform) where
  unfoldable pub run : List Request → Arena → os.World → List Answer
  run [] a w = []
  run (calling (put e) ∷ cs) a w = let (r, a') = insert os e a w in inserted r ∷ run cs a' w
  run (calling (release ptr total) ∷ cs) a w =
      let (r, a', w') = free os ptr total a w in released r ∷ run cs a' w'
  run (look ptr ∷ cs) a w = looked (state_of a ptr) ∷ run cs a w
  run (counts ∷ cs) a w = counted a.live a.q_len ∷ run cs a w

-- The same calls on a book of `cap` slots and a quarantine of `bound`.
module _ (cap bound : ℕ) where
  unfoldable pub book_run : List Request → Book → List Answer
  book_run [] b = []
  book_run (calling (put e) ∷ cs) b =
      let (r, b') = Book.insert cap e.user_ptr b in inserted r ∷ book_run cs b'
  book_run (calling (release ptr total) ∷ cs) b =
      let (r, b') = Book.free bound ptr b in released r ∷ book_run cs b'
  book_run (look ptr ∷ cs) b = looked (b.states ptr) ∷ book_run cs b
  book_run (counts ∷ cs) b = counted b.live (length b.queue) ∷ book_run cs b

  -- No call inserts a key that is still tracked: `mmap` gives no address that is still mapped.
  abbrev pub Admits : List Request → Book → Type 0
  Admits [] b = Unit
  Admits (calling (put e) ∷ cs) b =
      (b.states e.user_ptr ≡ none) × Admits cs (Book.insert cap e.user_ptr b).1
  Admits (calling (release ptr total) ∷ cs) b = Admits cs (Book.free bound ptr b).1
  Admits (look ptr ∷ cs) b = Admits cs b
  Admits (counts ∷ cs) b = Admits cs b

module _ (os : Platform) (a : Arena) (w : os.World) where
  pub insert-sizes :
      (e : Entry) → ((insert os e a w).1.cap ≡ a.cap) × ((insert os e a w).1.q_cap ≡ a.q_cap)
  unfolding insert
  insert-sizes e = ground arith

  pub free-sizes :
      (ptr total : ℕ)
      → ((free os ptr total a w).1.cap ≡ a.cap) × ((free os ptr total a w).1.q_cap ≡ a.q_cap)
  unfolding free
  free-sizes ptr total = ground arith

-- What the lookups and the counts say of an arena that reads as a book.
pub state_of-Reads : {a : Arena} {b : Book} → Reads a b → (ptr : ℕ) → state_of a ptr ≡ b.states ptr
unfolding state_of find_locked
state_of-Reads r ptr = r.states ptr

q_len-Reads : {a : Arena} {b : Book} → Reads a b → a.q_len ≡ length b.queue
q_len-Reads r = rw (← r.queue, length-map, length-queued) refl

module _ (os : Platform) {k cap bound : ℕ} where
  -- The calls of an arena of `cap` slots whose ring has `bound` places.
  runs_alike :
      (cs : List Request) {a : Arena} {b : Book} (w : os.World)
      → a.cap ≡ cap
      → a.q_cap ≡ bound
      → IsValid k a
      → Reads a b
      → Admits cap bound cs b
      → run os cs a w ≡ book_run cap bound cs b
  unfolding run book_run
  runs_alike [] w ec eq v r ok = refl
  runs_alike (calling (put e) ∷ cs) {a} {b} w ec eq v r ok =
      ap₂ ◌∷◌ (ap inserted step.0) (runs_alike cs w (sizes.0 ∙ ec) (sizes.1 ∙ eq) valid step.1 ok.1)
    where
      sizes : ((insert os e a w).1.cap ≡ a.cap) × ((insert os e a w).1.q_cap ≡ a.q_cap)
      sizes = insert-sizes os a w e

      step :
          ((insert os e a w).0 ≡ (Book.insert cap e.user_ptr b).0)
          × Reads (insert os e a w).1 (Book.insert cap e.user_ptr b).1
      step =
          subst
            (λ c.
              ((insert os e a w).0 ≡ (Book.insert c e.user_ptr b).0)
              × Reads (insert os e a w).1 (Book.insert c e.user_ptr b).1)
            ec (insert_refines os v r w e ok.0)

      valid : IsValid k (insert os e a w).1
      valid = insert-IsValid v os e w (IsFresh-of v.indexed e.user_ptr (r.states e.user_ptr ∙ ok.0))
  runs_alike (calling (release ptr total) ∷ cs) {a} {b} w ec eq v r ok =
      ap₂ ◌∷◌ (ap released step.0)
        (runs_alike cs _ (sizes.0 ∙ ec) (sizes.1 ∙ eq) (free-IsValid os v ptr total w) step.1 ok)
    where
      sizes : ((free os ptr total a w).1.cap ≡ a.cap) × ((free os ptr total a w).1.q_cap ≡ a.q_cap)
      sizes = free-sizes os a w ptr total

      step :
          ((free os ptr total a w).0 ≡ (Book.free bound ptr b).0)
          × Reads (free os ptr total a w).1 (Book.free bound ptr b).1
      step =
          subst
            (λ c.
              ((free os ptr total a w).0 ≡ (Book.free c ptr b).0)
              × Reads (free os ptr total a w).1 (Book.free c ptr b).1)
            eq (free_refines os v r ptr total w)
  runs_alike (look ptr ∷ cs) w ec eq v r ok =
      ap₂ ◌∷◌ (ap looked (state_of-Reads r ptr)) (runs_alike cs w ec eq v r ok)
  runs_alike (counts ∷ cs) w ec eq v r ok =
      ap₂ ◌∷◌ (ap₂ counted r.live (q_len-Reads r)) (runs_alike cs w ec eq v r ok)

abbrev pub blank : Book
blank = record { states = λ _. none; queue = []; live = 0 }

pub new-Reads : {k cap q_cap : ℕ} → IsValid k (new cap q_cap) → Reads (new cap q_cap) blank
unfolding queued
new-Reads v = record {
  states = λ ptr. state_at-none v.indexed ptr (λ i h s. cc s);
  queue = refl;
  live = refl;
}

-- On a new arena of 2 ^ k slots, k at most 63, with a ring of at least one place whose bytes are a
-- word, every sequence of inserts and frees, in which no pointer is inserted while it is still
-- tracked, and of lookups of a state and of the numbers of live and quarantined regions gets the answers
-- that the blank book gives.
pub run_refines :
    (os : Platform) (k q_cap : ℕ) (cs : List Request) (w : os.World)
    → k ≤ 63
    → 0 < q_cap
    → q_cap * 8 < word
    → Admits (2 ^ k) q_cap cs blank
    → run os cs (new (2 ^ k) q_cap) w ≡ book_run (2 ^ k) q_cap cs blank
run_refines os k q_cap cs w hk pos small ok =
    let v = new-IsValid k q_cap hk pos small in runs_alike os cs w refl refl v (new-Reads v) ok
