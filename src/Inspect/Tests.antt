-- ===== src/Inspect/Tests.antt =====
-- One region on a table of four slots.
use coffin.Prelude.{◌^◌, ◌≡◌, ◌⊎◌, refl, true, false, none, some, arith, ◌+◌, List, [], ◌∷◌, ◌≤◌}
use coffin.Samples.{host, entry_at}
use coffin.Registry.{
  Arena, Entry, new, insert, free, home, hash, find_vacant, next, find_locked, find_from, seal,
  quarantine_push, evict,
}
use coffin.Registry.Invariant.{IsValid, new-IsValid, insert-IsValid}
use coffin.Inspect.{slot_state, live_count, quarantine_len, eviction_count}
use coffin.Registry.Views.{IsFresh-of}
use coffin.Registry.Free.{free-IsValid}
use coffin.Inspect.Rounds.{rounds, IsAdmitted, rounds-evict}
use coffin.Inspect.Accounts.{total, free-total, insert-total, slot_state-free}

abbrev fresh : Arena
fresh = new (2 ^ 2) 1

abbrev entry : Entry
entry = entry_at 0x10000

abbrev one_live : Arena
one_live = (insert host entry fresh 0).1

fresh-IsValid : IsValid 2 fresh
fresh-IsValid = new-IsValid 2 1 (omega arith) (omega arith) (omega arith)

one_live-IsValid : IsValid 2 one_live
one_live-IsValid = insert-IsValid fresh-IsValid host entry 0 (λ i h s. cc s)

insert-total_test : total one_live ≡ total fresh + 1
unfolding insert find_vacant home hash
insert-total_test = insert-total host fresh-IsValid 0 entry refl

free-total_test : total (free host entry.user_ptr 8192 one_live 0).1 ≡ total one_live
unfolding insert find_vacant home hash
free-total_test = free-total host one_live-IsValid 0 entry.user_ptr 8192 (omega arith)

slot_state-free_example :
    ((slot_state one_live entry.user_ptr ≡ some "ready")
      × ((free host entry.user_ptr 8192 one_live 0).0 ≡ some true)
      × (slot_state (free host entry.user_ptr 8192 one_live 0).1 entry.user_ptr ≡ some "freed"))
    ⊎ ((slot_state one_live entry.user_ptr ≡ some "freed")
        × (free host entry.user_ptr 8192 one_live 0 ≡ (some false, one_live, 0)))
    ⊎ ((slot_state one_live entry.user_ptr ≡ none)
        × (free host entry.user_ptr 8192 one_live 0 ≡ (none, one_live, 0)))
slot_state-free_example = slot_state-free host one_live-IsValid 0 entry.user_ptr 8192

-- Two rounds on a quarantine of one.
abbrev entries : List Entry
entries = entry ∷ entry_at 0x20000 ∷ []

entries-IsAdmitted : IsAdmitted host entries fresh 0
unfolding insert find_vacant home hash next free find_locked find_from seal quarantine_push evict
entries-IsAdmitted = (
  λ i h s. cc s,
  (
    IsFresh-of (free-IsValid host one_live-IsValid entry.user_ptr 8192 0).indexed
        (entry_at 0x20000).user_ptr refl,
    tt,
  ),
)

rounds-evict_test :
    let b = rounds host entries fresh 0 in
    (live_count b ≡ 0) × (quarantine_len b ≤ 1) × (quarantine_len b + eviction_count b ≡ 2)
rounds-evict_test =
    rounds-evict host fresh-IsValid entries 0 entries-IsAdmitted (omega arith) (omega arith)
