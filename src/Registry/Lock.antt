-- ===== src/Registry/Lock.antt =====
-- src/registry.rs: the spinlock of the writers. Any number of threads call `lock`, make the stores of
-- their section one by one, and drop the guard, in any interleaving.
pub mod Serial
pub mod Exclusion
use coffin.Prelude.{ℕ, ◌≡◌, Bool, true, false, List, [], ◌∷◌, update}

-- What a thread does under the lock.
abbrev pub Section : Type 0 → Type 0
Section S = S → List (S → S)

-- Where a thread is: outside; in the loop of `lock`, with the section that it is going to run; or
-- between `lock` and the drop of the guard, with the stores that are left.
pub data Pc (S : Type 0) : Type 0 where
  outside : Pc S
  spinning : Section S → Pc S
  inside : List (S → S) → Pc S

-- `SpinLock::held`, the threads, and what the lock protects.
pub record Threads (S : Type 0) : Type 0 where
  pub held : Bool
  pub pc : ℕ → Pc S
  pub shared : S

-- `SpinLock::new`, before any thread calls `lock`.
abbrev pub unlocked : {S : Type 0} → S → Threads S
unlocked s = record { held = false; pc = λ i. outside; shared = s }

-- One step of one thread. `IsSection` says which sections a thread may want to run.
pub data Step {S : Type 0} (IsSection : Section S → Type 0) (t : Threads S)
    : Threads S → Type 0 where
  call :
      (i : ℕ) (g : Section S)
      → t.pc i ≡ outside
      → IsSection g
      → Step IsSection t (record t { pc = update t.pc i (spinning g) })
  -- `compare_exchange_weak` succeeds: it found `false` and stored `true`.
  acquire :
      (i : ℕ) (g : Section S)
      → t.pc i ≡ spinning g
      → t.held ≡ false
      → Step IsSection t (record t { held = true; pc = update t.pc i (inside (g t.shared)) })
  -- It fails, which it may do at any time, and the thread goes round.
  spin : (i : ℕ) (g : Section S) → t.pc i ≡ spinning g → Step IsSection t t
  store :
      (i : ℕ) (f : S → S) (fs : List (S → S))
      → t.pc i ≡ inside (f ∷ fs)
      → Step IsSection t (record t { shared = f t.shared; pc = update t.pc i (inside fs) })
  -- The drop of the guard.
  unlock :
      (i : ℕ)
      → t.pc i ≡ inside []
      → Step IsSection t (record t { held = false; pc = update t.pc i outside })

pub data Reach {S : Type 0} (IsSection : Section S → Type 0) (s : S) : Threads S → Type 0 where
  start : Reach IsSection s (unlocked s)
  later : {t u : Threads S} → Reach IsSection s t → Step IsSection t u → Reach IsSection s u

-- The stores of a section, one after the other.
abbrev pub apply_all : {S : Type 0} → List (S → S) → S → S
apply_all [] s = s
apply_all (f ∷ fs) s = apply_all fs (f s)
