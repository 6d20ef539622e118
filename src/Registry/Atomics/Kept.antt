-- ===== src/Registry/Atomics/Kept.antt =====
-- What no access takes back: the messages, and how far a view has come.
use coffin.Prelude.{
  ℕ, suc, ◌≤◌, ◌≡◌, ◌≢◌, refl, sym, true, ◌&&◌, inl, inr, none, some, arith, Bool-cases, update,
  update_self, update_ne, ◌==◌,
}
use native.Mathlib.Decide.{ℕ_discrete}
use coffin.Registry.Atomics.{
  relaxed, View, Message, Execution, held, after_load, put, lock_order, Acts, load, store, lock,
  spin, unlock, Acted, still, later,
}
use coffin.Registry.Atomics.Coherence.{Messages, after_load-le}
use coffin.Registry.Atomics.Held.{load_by-view}

same_place : (x t y u : ℕ) → (y == x && u == t) ≡ true → (y ≡ x) × (u ≡ t)
same_place x t y u p = (ground arith, ground arith)

-- A message stays where it is.
put_kept :
    (messages : Messages) (x t : ℕ) (m : Message) (y u : ℕ) (m' : Message)
    → messages x t ≡ none
    → messages y u ≡ some m'
    → put messages x t m y u ≡ some m'
put_kept messages x t m y u m' free e = elim (Bool-cases (y == x && u == t)) [
  | inl p ↦ let (same, at) = same_place x t y u p in cc (free, e, same, at)
  | inr p ↦ rw p e
]

pub Acts-kept :
    (i : ℕ) {e e' : Execution}
    → Acts i e e'
    → (x t : ℕ) (m : Message) → e.messages x t ≡ some m
    → e'.messages x t ≡ some m
Acts-kept i (load o y u m' n at reached) x t m h = h
Acts-kept i {e} (store o y u value n holds lt free) x t m h = put_kept e.messages y u _ x t m free h
Acts-kept i {e} (lock u m' out at v reached free) x t m h =
    put_kept e.messages held (suc u) _ x t m free h
Acts-kept i (spin u m' out at reached) x t m h = h
Acts-kept i {e} (unlock u holds lt free) x t m h = put_kept e.messages held u _ x t m free h

-- A view goes forwards.
view_moved :
    (e : Execution) (i : ℕ) (v : View)
    → ((y : ℕ) → e.view i y ≤ v y)
    → (j y : ℕ) → e.view j y ≤ update e.view i v j y
view_moved e i v h j y = elim (ℕ_discrete i j) [
  | yes p ↦ rw (update_self e.view v p) (rw (sym p) (h y))
  | no n ↦ rw (update_ne e.view v n) (omega arith)
]

update-le : (v : View) (x t : ℕ) → v x ≤ t → (y : ℕ) → v y ≤ update v x t y
update-le v x t h y = ground arith

lock-view :
    (v : View) (t : ℕ) (m : Message)
    → v held ≤ t
    → (y : ℕ) → v y ≤ update (after_load lock_order v held t m) held (suc t) y
lock-view v t m h y =
    let reached = after_load-le lock_order v held t m h y in
    elim (ℕ_discrete held y) [
      | yes p ↦
          rw (update_self (after_load lock_order v held t m) (suc t) p) (rw (sym p) (omega arith))
      | no n ↦ rw (update_ne (after_load lock_order v held t m) (suc t) n) reached
    ]

Acts-view : (i : ℕ) {e e' : Execution} → Acts i e e' → (j y : ℕ) → e.view j y ≤ e'.view j y
Acts-view i {e} (load o x t m n at reached) j y = load_by-view i o x t m e reached j y
Acts-view i {e} (store o x t value n holds lt free) j y =
    view_moved e i _ (update-le (e.view i) x t (omega arith)) j y
Acts-view i {e} (lock t m out at v reached free) j y =
    view_moved e i _ (lock-view (e.view i) t m (omega arith)) j y
Acts-view i {e} (spin t m out at reached) j y = load_by-view i relaxed held t m e reached j y
Acts-view i {e} (unlock t holds lt free) j y =
    view_moved e i _ (update-le (e.view i) held t (omega arith)) j y

pub Acted-kept :
    {e e' : Execution}
    → Acted e e'
    → (x t : ℕ) (m : Message) → e.messages x t ≡ some m
    → e'.messages x t ≡ some m
Acted-kept still x t m h = h
Acted-kept (later i r a) x t m h = Acts-kept i a x t m (Acted-kept r x t m h)

pub Acted-view : {e e' : Execution} → Acted e e' → (j y : ℕ) → e.view j y ≤ e'.view j y
Acted-view still j y = omega arith
Acted-view (later i r a) j y = omega (arith, Acted-view r j y, Acts-view i a j y)

-- What another thread leaves alone.
pub Acts-view_other : (j i : ℕ) {e e' : Execution} → j ≢ i → Acts j e e' → e'.view i ≡ e.view i
Acts-view_other j i {e} n (load o x t m out at reached) = update_ne e.view _ n
Acts-view_other j i {e} n (store o x t value out holds lt free) = update_ne e.view _ n
Acts-view_other j i {e} n (lock t m out at v reached free) = update_ne e.view _ n
Acts-view_other j i {e} n (spin t m out at reached) = update_ne e.view _ n
Acts-view_other j i {e} n (unlock t holds lt free) = update_ne e.view _ n

pub Acts-holds_other : (j i : ℕ) {e e' : Execution} → j ≢ i → Acts j e e' → e'.holds i ≡ e.holds i
Acts-holds_other j i {e} n (load o x t m out at reached) = refl
Acts-holds_other j i {e} n (store o x t value out holds lt free) = refl
Acts-holds_other j i {e} n (lock t m out at v reached free) = update_ne e.holds _ n
Acts-holds_other j i {e} n (spin t m out at reached) = refl
Acts-holds_other j i {e} n (unlock t holds lt free) = update_ne e.holds _ n
