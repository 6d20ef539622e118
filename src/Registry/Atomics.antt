-- ===== src/Registry/Atomics.antt =====
-- src/registry.rs, the orderings of the atomic accesses: threads that see each other's stores late, as
-- the memory model of the language allows. Every place keeps its messages, by stamp; a thread has a view,
-- which is the stamp below which it reads nothing any more at each place. A store with Release sends the
-- view of its thread along, and a load with Acquire joins the view that it finds. Places are numbered:
-- 0 is `SpinLock::held`, and each slot has forty. A load finds a store that was made before it, so the
-- promises of a weaker machine are left out, as are the ring and the counters, which are accessed with
-- Relaxed only.
pub mod Coherence
pub mod Held
pub mod Kept
pub mod Filled
pub mod Taken
pub mod Published
pub mod Tests
use Prim.Native.Nat.{max}
use coffin.Prelude.{
  ℕ, suc, ◌+◌, ◌*◌, ◌≤◌, ◌<◌, ◌≡◌, ◌≢◌, Bool, true, false, ◌&&◌, Option, none, some, List, [], ◌∷◌,
  update, ◌==◌, if◌then◌else◌,
}
use coffin.Registry.{Entry}

-- The orderings that the source uses.
pub data MemoryOrder : Type 0 where
  relaxed acquire release : MemoryOrder

-- Of the exchange in `SpinLock::lock`, where it succeeds, and of the store in `drop`.
abbrev pub lock_order : MemoryOrder
lock_order = acquire

abbrev pub unlock_order : MemoryOrder
unlock_order = release

-- Of the stores of `insert` into the fields, of the stores of `insert`, `free` and `evict` into the
-- state, and of the loads of the state in `classify` and `state_of`.
abbrev pub fill_order : MemoryOrder
fill_order = relaxed

abbrev pub publish_order : MemoryOrder
publish_order = release

abbrev pub state_order : MemoryOrder
state_order = acquire

abbrev pub View : Type 0
View = ℕ → ℕ

pub record Message : Type 0 where
  pub value : ℕ
  pub view : View

-- The messages by place and stamp, the view of each thread, and whether it is between `lock` and the
-- drop of the guard.
pub record Execution : Type 0 where
  pub messages : ℕ → ℕ → Option Message
  pub view : ℕ → View
  pub holds : ℕ → Bool

abbrev pub held : ℕ
held = 0

abbrev pub join : View → View → View
join v v' x = max (v x) (v' x)

-- The view of a thread that loads a message.
unfoldable pub after_load : MemoryOrder → View → ℕ → ℕ → Message → View
after_load acquire v x t m = join (update v x t) m.view
after_load _ v x t m = update v x t

-- The view that a store sends along.
unfoldable pub carried : MemoryOrder → View → ℕ → ℕ → View
carried release v x t = update v x t
carried _ v x t = update (λ _. 0) x t

abbrev pub put : (ℕ → ℕ → Option Message) → ℕ → ℕ → Message → ℕ → ℕ → Option Message
put messages x t m y u = if y == x && u == t then some m else messages y u

-- What the execution is after a load and after a store of a thread.
abbrev pub load_by : ℕ → MemoryOrder → ℕ → ℕ → Message → Execution → Execution
load_by i o x t m e = record e { view = update e.view i (after_load o (e.view i) x t m) }

abbrev pub store_by : ℕ → MemoryOrder → ℕ → ℕ → ℕ → Execution → Execution
store_by i o x t value e = record e {
  messages = put e.messages x t (record { value = value; view = carried o (e.view i) x t });
  view = update e.view i (update (e.view i) x t);
}

-- After the exchange that takes the lock, on the message that it found, and after the drop of the guard.
abbrev pub lock_by : ℕ → ℕ → Message → Execution → Execution
lock_by i t m e = record e {
  messages = put e.messages held (suc t) (record { value = 1; view = update m.view held (suc t) });
  view = update e.view i (update (after_load lock_order (e.view i) held t m) held (suc t));
  holds = update e.holds i true;
}

abbrev pub unlock_by : ℕ → ℕ → Execution → Execution
unlock_by i t e = record (store_by i unlock_order held t 0 e) { holds = update e.holds i false }

-- One access of thread `i`. Everything but the lock is stored to under the lock only.
pub data Acts (i : ℕ) (e : Execution) : Execution → Type 0 where
  load :
      (o : MemoryOrder) (x t : ℕ) (m : Message)
      → x ≢ held
      → e.messages x t ≡ some m
      → e.view i x ≤ t
      → Acts i e (load_by i o x t m e)
  store :
      (o : MemoryOrder) (x t value : ℕ)
      → x ≢ held
      → e.holds i ≡ true
      → e.view i x < t
      → e.messages x t ≡ none
      → Acts i e (store_by i o x t value e)
  -- The exchange succeeds: it finds 0, and its own message comes directly behind the one that it read,
  -- whose view it passes on.
  lock :
      (t : ℕ) (m : Message)
      → e.holds i ≡ false
      → e.messages held t ≡ some m
      → m.value ≡ 0
      → e.view i held ≤ t
      → e.messages held (suc t) ≡ none
      → Acts i e (lock_by i t m e)
  -- It fails, which it may do whatever it finds.
  spin :
      (t : ℕ) (m : Message)
      → e.holds i ≡ false
      → e.messages held t ≡ some m
      → e.view i held ≤ t
      → Acts i e (load_by i relaxed held t m e)
  unlock :
      (t : ℕ)
      → e.holds i ≡ true
      → e.view i held < t
      → e.messages held t ≡ none
      → Acts i e (unlock_by i t e)

-- Any accesses of any threads.
pub data Acted (e : Execution) : Execution → Type 0 where
  still : Acted e e
  later : (i : ℕ) {e' e'' : Execution} → Acted e e' → Acts i e' e'' → Acted e e''

-- Zeroed memory, before any thread runs.
abbrev pub zeroed : Execution
zeroed = record {
  messages = λ x t. if t == 0 then some (record { value = 0; view = λ y. 0 }) else none;
  view = λ i x. 0;
  holds = λ i. false;
}

-- The words of a slot: the state, six fields, and sixteen words for each of the two stacks.
abbrev pub state_place : ℕ → ℕ
state_place slot = 40 * slot + 1

abbrev pub field_place : ℕ → ℕ → ℕ
field_place slot n = 40 * slot + 2 + n

-- Words that are stored one behind the other, from a place on.
unfoldable pub words_from : ℕ → List ℕ → List (ℕ × ℕ)
words_from x [] = []
words_from x (word ∷ rest) = (x, word) ∷ words_from (suc x) rest

-- What `insert` stores into the fields of a slot, in its order; `capture_ips` fills its array from the
-- front, first with the frames and then with zeros.
unfoldable pub insert_fields : ℕ → Entry → List ℕ → List (ℕ × ℕ)
insert_fields slot e alloc_ips =
    words_from (field_place slot 0)
      (e.base ∷ e.total_len ∷ e.user_ptr ∷ e.size ∷ e.align ∷ e.guard_addr ∷ alloc_ips)

-- Thread `i` under the lock makes stores into the fields of a slot and then stores READY, at the stamp
-- `published`; in between, the other threads do what they do.
pub data Inserting (i slot published : ℕ) : List (ℕ × ℕ) → Execution → Execution → Type 0 where
  fill_field :
      (x t value : ℕ) (rest : List (ℕ × ℕ)) (e e' : Execution)
      → e.view i x < t
      → e.messages x t ≡ none
      → Inserting i slot published rest (store_by i fill_order x t value e) e'
      → Inserting i slot published ((x, value) ∷ rest) e e'
  publish_state :
      (e : Execution)
      → e.view i (state_place slot) < published
      → e.messages (state_place slot) published ≡ none
      → Inserting i slot published [] e (store_by i publish_order (state_place slot) published 1 e)
  meanwhile :
      (j : ℕ) (fields : List (ℕ × ℕ)) (e e' e'' : Execution)
      → i ≢ j
      → Acts j e e'
      → Inserting i slot published fields e' e''
      → Inserting i slot published fields e e''
