-- ===== src/Registry/Atomics/Coherence.antt =====
-- What every execution has in common: who holds the lock has seen every store.
use coffin.Prelude.{
  ℕ, suc, ◌≤◌, ◌<◌, ◌≡◌, ◌≢◌, refl, true, false, ◌⊎◌, inl, inr, Option, none, some, arith, update,
}
use mathlib.Core.Path.{subst}
use coffin.Registry.Atomics.{
  MemoryOrder, relaxed, acquire, release, View, Message, Execution, held, after_load, put, zeroed,
}

abbrev pub Messages : Type 0
Messages = ℕ → ℕ → Option Message

-- The view has reached every message, those of the lock left aside.
abbrev pub Covers : Messages → View → Type 0
Covers messages v = (x t : ℕ) → x ≢ held → v x < t → messages x t ≡ none

-- The newest message of the lock, and that every message with a 0 before it is taken by an exchange.
pub record IsLast (messages : Messages) (last : ℕ) (m : Message) : Type 0 where
  pub at : messages held last ≡ some m
  pub beyond : (t : ℕ) → last < t → messages held t ≡ none
  pub taken :
      (t : ℕ) (m' : Message)
      → t < last
      → messages held t ≡ some m'
      → m'.value ≡ 0
      → messages held (suc t) ≢ none

-- The lock is free, and its newest message carries a view of everything.
pub record IsFree (e : Execution) (m : Message) : Type 0 where
  pub value : m.value ≡ 0
  pub nobody : (i : ℕ) → e.holds i ≡ false
  pub covered : Covers e.messages m.view

-- One thread holds the lock, and has seen everything.
pub record IsHeld (e : Execution) (last : ℕ) (m : Message) : Type 0 where
  pub value : m.value ≡ 1
  pub holder : ℕ
  pub holds : e.holds holder ≡ true
  pub only : (j : ℕ) → e.holds j ≡ true → holder ≡ j
  pub reached : last ≤ e.view holder held
  pub covered : Covers e.messages (e.view holder)

pub record IsCoherent (e : Execution) : Type 0 where
  pub last : ℕ
  pub latest : Message
  pub of_lock : IsLast e.messages last latest
  pub phase : IsFree e latest ⊎ IsHeld e last latest

pub zeroed-IsCoherent : IsCoherent zeroed
zeroed-IsCoherent = record {
  last = 0;
  latest = record { value = 0; view = λ y. 0 };
  of_lock = record {
    at = refl;
    beyond = λ t h. ground arith;
    taken = λ t m h e v. absurd (omega arith);
  };
  phase = inl (record { value = refl; nobody = λ i. refl; covered = λ x t n h. ground arith });
}

-- A load moves a view forwards only.
pub after_load-le :
    (o : MemoryOrder) (v : View) (x t : ℕ) (m : Message)
    → v x ≤ t
    → (y : ℕ) → v y ≤ after_load o v x t m y
unfolding after_load
after_load-le relaxed v x t m h y = ground arith
after_load-le acquire v x t m h y = ground arith
after_load-le release v x t m h y = ground arith

pub Covers-le :
    (messages : Messages) (v v' : View)
    → Covers messages v
    → ((y : ℕ) → v y ≤ v' y)
    → Covers messages v'
Covers-le messages v v' c h x t n lt = c x t n (omega (arith, h x))

-- A message behind the view.
pub Covers-put :
    (messages : Messages) (v : View) (x t : ℕ) (m : Message)
    → Covers messages v
    → v x < t
    → Covers (put messages x t m) (update v x t)
Covers-put messages v x t m c lt y u n h = ground (arith, c y u n)

pub Covers-put_held :
    (messages : Messages) (v : View) (t : ℕ) (m : Message)
    → Covers messages v
    → Covers (put messages held t m) v
Covers-put_held messages v t m c y u n h = ground (arith, c y u n h)

pub put_self : (messages : Messages) (x t : ℕ) (m : Message) → put messages x t m x t ≡ some m
put_self messages x t m = ground arith

pub put_elsewhere :
    (messages : Messages) (x t : ℕ) (m : Message) (y u : ℕ)
    → y ≢ x
    → put messages x t m y u ≡ messages y u
put_elsewhere messages x t m y u n = ground arith

pub put_beside :
    (messages : Messages) (x t : ℕ) (m : Message) (u : ℕ)
    → u ≢ t
    → put messages x t m x u ≡ messages x u
put_beside messages x t m u n = ground arith

-- A thread that holds the lock is the one that does.
pub record IsHolder (e : Execution) (last : ℕ) (m : Message) (i : ℕ) : Type 0 where
  pub value : m.value ≡ 1
  pub only : (j : ℕ) → e.holds j ≡ true → i ≡ j
  pub reached : last ≤ e.view i held
  pub covered : Covers e.messages (e.view i)

pub IsCoherent-IsHolder :
    {e : Execution} (v : IsCoherent e) (i : ℕ) → e.holds i ≡ true → IsHolder e v.last v.latest i
IsCoherent-IsHolder {e} v i holds = elim v.phase [
  | inl f ↦ cc (f.nobody i, holds)
  | inr f ↦
      subst (IsHolder e v.last v.latest) (f.only i holds)
        (record { value = f.value; only = f.only; reached = f.reached; covered = f.covered })
]
