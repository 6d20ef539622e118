-- ===== src/Examples/Inspect.antt =====
-- src/examples/inspect.rs. The child that it forks is a copy of the task, of which the parent sees
-- whether a signal ended it. The messages are left out; the buffer of stdout, which the first of
-- them allocates, is taken to be there.
pub mod Ample
pub mod Churn
pub mod Outcome
use Prim.Native.String.{String}
use Prim.Native.String
use Prim.Native.Nat.{eq}
use coffin.Prelude.{
  ℕ, zero, suc, ◌+◌, Bool, true, false, ◌&&◌, Option, none, some, ltb, leb, if◌then◌else◌,
  wrapping_add, wrapping_sub,
}
use coffin.Config.{quarantine_cap}
use coffin.Region.{Layout}
use coffin.Inspect.{slot_state, eviction_count, quarantine_len}
use coffin.Handler.{rerun_with_default, exited}
use coffin.Examples.{
  Setup, Task, Ran, returned, killed, quit, stopped, Program, and_then, allocate, release, not_null,
  print_state, write_volatile,
}

abbrev pub checked_layout : Layout
checked_layout = record { size = 128; align = 16 }

abbrev pub round_layout : Layout
round_layout = record { size = 32; align = 8 }

abbrev pub same_text : String → String → Bool
same_text s t = elim (String.compare s t) [ eq ↦ true | _ ↦ false ]

abbrev pub is_state : String → Option String → Bool
is_state expected none = false
is_state expected (some state) = same_text state expected

-- `shadowed`: the program does not call `arm`, and the standard library's handler may stand where
-- Coffin's was. It gives the signal back its default disposition, unless a stack has overflowed.
module _ (s : Setup) (shadowed : Bool) where
  open s use {os, quarantine}

  infixl 5 ◌>>=◌ ◌>>◌
  abbrev ◌>>=◌ : {A B : Type 0} → Program s A → (A → Program s B) → Program s B
  p >>= f = λ t. and_then s (p t) f

  abbrev ◌>>◌ : {B : Type 0} → Program s Unit → Program s B → Program s B
  p >> q = p >>= λ _. q

  -- `ptr::write_bytes` over a buffer.
  abbrev pub fill_buffer : ℕ → ℕ → ℕ → Program s Unit
  fill_buffer ptr byte n t = returned tt (record t { world = os.write_bytes ptr byte n t.world })

  -- `assert_eq!(coffin::slot_state(p), Some(..))`
  abbrev pub assert_state : ℕ → String → Program s Unit
  assert_state ptr expected t =
      if is_state expected (slot_state t.arena ptr) then returned tt t else stopped

  -- `WIFSIGNALED`, of a child that calls `_exit(0)` unless it faults.
  abbrev pub signaled : Ran s Unit → Bool
  signaled (killed h t) = elim h.ends [ rerun_with_default ↦ true | exited code ↦ shadowed ]
  signaled _ = false

  abbrev pub touch_in_child : ℕ → Program s Unit
  touch_in_child ptr t = if signaled (write_volatile s ptr 0 t) then returned tt t else quit 1 t

  unfoldable pub seal_check : Program s Unit
  unfolding allocate release print_state write_volatile
  seal_check = do
    ptr ← allocate s checked_layout
    ptr ← not_null s ptr
    fill_buffer ptr 0xAA 128
    print_state s ptr
    assert_state ptr "ready"
    release s ptr checked_layout
    print_state s ptr
    assert_state ptr "freed"
    touch_in_child ptr

  -- The loop over the rounds.
  unfoldable pub churn : ℕ → Program s Unit
  unfolding allocate release
  churn zero = returned tt
  churn (suc n) = do
    ptr ← allocate s round_layout
    ptr ← not_null s ptr
    release s ptr round_layout
    churn n

  unfoldable pub quarantine_check : Program s Unit
  unfolding churn
  quarantine_check t =
      let qcap = quarantine_cap quarantine in
      let rounds = wrapping_add qcap 100 in
      let before = eviction_count t.arena in
      and_then s (churn rounds t) (λ _ t'.
        let evicted = wrapping_sub (eviction_count t'.arena) before in
        if ltb 0 evicted
          && leb (wrapping_sub rounds qcap) evicted
          && leb (quarantine_len t'.arena) qcap
        then returned tt t'
        else stopped)

  -- `main`, past the first allocation of the process.
  unfoldable pub inspect_main : Program s Unit
  unfolding seal_check quarantine_check
  inspect_main = do seal_check; quarantine_check
