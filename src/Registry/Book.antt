-- ===== src/Registry/Book.antt =====
-- What the registry promises, without slots, hashing and probing: the state of each key, the keys in
-- quarantine in the order of their release, and the number of live ones.
use coffin.Prelude.{
  ℕ, ◌+◌, ◌-◌, Bool, true, false, Option, none, some, List, [], ◌∷◌, ◌++◌, length, update, ltb,
  ◌==◌, if◌then◌else◌,
}
use coffin.Registry.{SlotState, ready, freed}

pub record Book : Type 0 where
  pub states : ℕ → Option SlotState
  pub queue : List ℕ
  pub live : ℕ

-- A book with room for `cap` keys takes a new one as long as there is room.
unfoldable pub insert : ℕ → ℕ → Book → Bool × Book
insert cap ptr b =
    if ltb (b.live + length b.queue) cap
    then (true, record b { states = update b.states ptr (some ready); live = b.live + 1 })
    else (false, b)

-- The oldest key of the queue is forgotten.
abbrev pub forget : List ℕ → Book → Book
forget [] b = b
forget (x ∷ q) b = record b { states = update b.states x none; queue = q }

-- A key joins a queue of at most `bound` keys.
unfoldable pub release : ℕ → ℕ → Book → Book
release bound ptr b =
    let c = if length b.queue == bound then forget b.queue b else b in
    record c {
      states = update c.states ptr (some freed);
      queue = c.queue ++ ptr ∷ [];
      live = c.live - 1;
    }

abbrev pub free_as : Option SlotState → ℕ → ℕ → Book → Option Bool × Book
free_as (some ready) bound ptr b = (some true, release bound ptr b)
free_as (some freed) bound ptr b = (some false, b)
free_as _ bound ptr b = (none, b)

unfoldable pub free : ℕ → ℕ → Book → Option Bool × Book
free bound ptr b = free_as (b.states ptr) bound ptr b
