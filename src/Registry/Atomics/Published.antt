-- ===== src/Registry/Atomics/Published.antt =====
-- The publication of an entry: what a reader that finds its state then finds elsewhere.
use coffin.Prelude.{
  ℕ, ◌≤◌, ◌<◌, ◌≡◌, ◌≢◌, refl, sym, ap, ◌∙◌, true, ◌⊎◌, inl, inr, none, some, List, arith, update,
  update_self,
}
use mathlib.Core.Path.{subst}
use native.Mathlib.Decide.{ℕ_discrete}
use coffin.Registry.{Entry}
use coffin.Registry.Atomics.{
  View, Message, Execution, held, after_load, carried, load_by, store_by, Acted, zeroed, join,
  publish_order, state_order, state_place, insert_fields, Inserting,
}
use coffin.Registry.Atomics.Coherence.{Messages, zeroed-IsCoherent, put_self, IsCoherent-IsHolder}
use coffin.Registry.Atomics.Taken.{same_message}
use coffin.Registry.Atomics.Held.{Acted-IsCoherent}
use coffin.Registry.Atomics.Kept.{Acted-kept, Acted-view}
use coffin.Registry.Atomics.Filled.{
  InFields, IsPublished, Inserting-IsPublished, insert_fields-IsAbove,
}

load_by-join :
    (j x t : ℕ) (m : Message) (e : Execution) (y : ℕ)
    → m.view y ≤ (load_by j state_order x t m e).view j y
unfolding after_load
load_by-join j x t m e y =
    let now = update_self e.view (join (update (e.view j) x t) m.view) {i = j} refl in
    rw now (ground arith)

-- What follows from a view: a message that is loaded is the newest one there was, or a later one.
IsPublished-load :
    (slot published x value : ℕ) {end : Execution} (p : IsPublished slot published x value end)
    → (messages : Messages) → messages x p.stamp ≡ some p.message
    → (t : ℕ) (m : Message) → messages x t ≡ some m
    → p.stamp ≤ t
    → (m.value ≡ value) ⊎ (end.messages x t ≡ none)
IsPublished-load slot published x value p messages kept t m at h = elim (ℕ_discrete p.stamp t) [
  | yes same ↦ inl (
      ap (λ (n : Message). n.value)
        (same_message (sym at ∙ subst (λ u. messages x u ≡ some p.message) same kept))
      ∙ p.equal)
  | no n ↦ inr (p.newest t (omega arith))
]

-- Thread `i`, which holds the lock, inserts an entry into a slot while the other threads make any
-- accesses; later thread `j` loads the message that the store of the state left, and after any further
-- accesses of any threads it loads a field. Then the state was READY, and what `j` finds in the field is
-- what `insert` stored into it, or what a writer has stored there since the insertion: never what was in
-- the slot before. All this in executions from zeroed memory on.
pub insert-published :
    {start end found read : Execution}
    → Acted zeroed start
    → (i : ℕ) → start.holds i ≡ true
    → (slot published : ℕ) (entry : Entry) (alloc_ips : List ℕ)
    → Inserting i slot published (insert_fields slot entry alloc_ips) start end
    → Acted end found
    → (j : ℕ) (flag : Message) → found.messages (state_place slot) published ≡ some flag
    → Acted (load_by j state_order (state_place slot) published flag found) read
    → (x value : ℕ) → InFields x value (insert_fields slot entry alloc_ips)
    → (t : ℕ) (m : Message) → read.messages x t ≡ some m
    → read.view j x ≤ t
    → (flag.value ≡ 1) × ((m.value ≡ value) ⊎ (end.messages x t ≡ none))
insert-published {start} {end} {found} {read} before i holds slot published entry alloc_ips r r' j
      flag at r'' x value within t m at' reached =
    let coherent = Acted-IsCoherent before zeroed-IsCoherent in
    let p =
      Inserting-IsPublished i slot published x value (state_place slot) (omega arith)
        (insert_fields-IsAbove slot entry alloc_ips) within
        (record { coherent = coherent; holds = holds }) r in
    let same =
      same_message (sym (Acted-kept r' (state_place slot) published p.flag p.flag_at) ∙ at) in
    let seen = Acted-view r'' j x in
    let joined = load_by-join j (state_place slot) published flag found x in
    (
      ap (λ (n : Message). n.value) (sym same) ∙ p.ready,
      IsPublished-load slot published x value p read.messages
          (Acted-kept r'' x p.stamp p.message (Acted-kept r' x p.stamp p.message p.at)) t m at'
          (omega (
            arith,
            subst (λ (n : Message). p.stamp ≤ n.view x) same p.sent,
            seen,
            joined,
            reached,
          )),
    )

carried-le : (v : View) (x t y : ℕ) → v x < t → v y ≤ carried publish_order v x t y
unfolding carried
carried-le v x t y h = ground arith

-- Thread `i`, which holds the lock, stores any state into a slot (READY, FREED or TOMB), and later
-- thread `j` loads that message and then, after any accesses of any threads, the message with stamp `u`
-- at some place other than the lock. Then no message had a later stamp there when `i` made its store:
-- all that was overwritten before the state changed is out of the reader's sight. All this in
-- executions from zeroed memory on.
pub state-newest :
    {before found read : Execution}
    → Acted zeroed before
    → (i : ℕ) → before.holds i ≡ true
    → (slot t state : ℕ) → before.view i (state_place slot) < t
    → before.messages (state_place slot) t ≡ none
    → Acted (store_by i publish_order (state_place slot) t state before) found
    → (j : ℕ) (flag : Message) → found.messages (state_place slot) t ≡ some flag
    → Acted (load_by j state_order (state_place slot) t flag found) read
    → (y u : ℕ) → y ≢ held
    → read.view j y ≤ u
    → (later_stamp : ℕ) → u < later_stamp
    → (flag.value ≡ state) × (before.messages y later_stamp ≡ none)
state-newest {before} {found} {read} r i holds slot t state lt free r' j flag at r'' y u n reached
      later_stamp h =
    let newest =
      (IsCoherent-IsHolder (Acted-IsCoherent r zeroed-IsCoherent) i holds).covered y later_stamp
        n in
    let own = put_self before.messages (state_place slot) t (record {
      value = state;
      view = carried publish_order (before.view i) (state_place slot) t;
    }) in
    let same = same_message (sym (Acted-kept r' (state_place slot) t _ own) ∙ at) in
    let sent =
      subst (λ (n : Message). before.view i y ≤ n.view y) same
        (carried-le (before.view i) (state_place slot) t y lt) in
    let seen = Acted-view r'' j y in
    let joined = load_by-join j (state_place slot) t flag found y in
    (ap (λ (n : Message). n.value) (sym same), newest (omega (arith, sent, seen, joined, reached)))
