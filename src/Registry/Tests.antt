-- ===== src/Registry/Tests.antt =====
-- Calls on a table of four slots with a quarantine of one.
use coffin.Prelude.{
  ◌+◌, ◌*◌, ◌%◌, ◌^◌, ◌≡◌, ◌↔◌, ◌⊎◌, refl, true, false, none, some, [], ◌∷◌, List, arith, ltb, ℕ,
  sym, ◌∙◌, elem,
}
use coffin.Samples.{host, entry_at}
use coffin.Registry.{
  freed, Arena, Entry, new, insert, free, home, find_from, quarantine_push, hash, find_vacant, next,
  state_of, find_locked,
}
use coffin.Registry.Book
use coffin.Registry.Book.{Book}
use coffin.Registry.Invariant.{IsValid, new-IsValid, insert-IsValid}
use coffin.Registry.Ring.{quarantine, enqueue}
use coffin.Registry.Quarantine.{quarantine-push}
use coffin.Registry.Lookup.{Tracks, find_from_iff}
use coffin.Registry.Hash.{home-eq_iff, home_same_offset}
use coffin.Registry.Views.{IsFresh-of}
use coffin.Registry.Refine.{Reads, insert_refines}
use coffin.Registry.Release.{free_refines}
use coffin.Registry.Free.{free-IsValid}
use coffin.Registry.Room.{insert-room}
use coffin.Fault.{use_after_free, info_of, classify}
use coffin.Fault.Scan.{Holds, IsApart}
use coffin.Fault.Freed.{free-classify}
use coffin.Registry.RoundTrip.{
  insert_key, insert_keys, all_ready, keys_from, insert_lookup_roundtrip,
  collisions_probe_then_fill, insert_keys-finds,
}
use coffin.Registry.Run.{
  Request, calling, put, release, look, counts, inserted, released, looked, counted, run, blank,
  new-Reads, run_refines, book_run,
}

abbrev start : Arena
start = new (2 ^ 2) 1

abbrev first : Entry
first = entry_at 0x10000

abbrev second : Entry
second = entry_at 0x20000

abbrev calls : List Request
calls =
    calling (put first)
    ∷ calling (put second)
    ∷ calling (release first.user_ptr 8192)
    ∷ calling (release first.user_ptr 8192)
    ∷ calling (release second.user_ptr 8192)
    ∷ look first.user_ptr
    ∷ look second.user_ptr
    ∷ counts
    ∷ calling (release first.user_ptr 8192)
    ∷ []

-- A double free is seen while the region is in quarantine, and the pointer is unknown afterwards.
run_refines_example :
    run host calls start 0
    ≡ inserted true
      ∷ inserted true
      ∷ released (some true)
      ∷ released (some false)
      ∷ released (some true)
      ∷ looked none
      ∷ looked (some freed)
      ∷ counted 0 1
      ∷ released none
      ∷ []
unfolding book_run Book.insert Book.free Book.release
run_refines_example =
    run_refines host 2 1 calls 0 (omega arith) (omega arith) (omega arith) (refl, (refl, tt))

-- The arena on which nothing has been called, and what it holds of it.
start-IsValid : IsValid 2 start
start-IsValid = new-IsValid 2 1 (omega arith) (omega arith) (omega arith)

start-Reads : Reads start blank
start-Reads = new-Reads start-IsValid

-- One region is tracked.
abbrev one_live : Arena
one_live = (insert host first start 0).1

abbrev one_booked : Book
one_booked = (Book.insert 4 first.user_ptr blank).1

one_live-IsValid : IsValid 2 one_live
one_live-IsValid =
    insert-IsValid start-IsValid host first 0
      (IsFresh-of start-IsValid.indexed first.user_ptr (start-Reads.states first.user_ptr))

one_live-Reads : Reads one_live one_booked
one_live-Reads = (insert_refines host start-IsValid start-Reads 0 first refl).1

new-IsValid_test : IsValid 2 (new 4 3)
new-IsValid_test = new-IsValid 2 3 (omega arith) (omega arith) (omega arith)

insert-IsValid_example : IsValid 2 (insert host second one_live 0).1
unfolding Book.insert
insert-IsValid_example =
    insert-IsValid one_live-IsValid host second 0
      (IsFresh-of one_live-IsValid.indexed second.user_ptr (one_live-Reads.states second.user_ptr))

insert_refines_example :
    let (r, a) = insert host second one_live 0 in
    let (r', b) = Book.insert one_live.cap second.user_ptr one_booked in (r ≡ r') × Reads a b
unfolding Book.insert
insert_refines_example = insert_refines host one_live-IsValid one_live-Reads 0 second refl

free_refines_example :
    let (r, a, w) = free host first.user_ptr 8192 one_live 0 in
    let (r', b) = Book.free one_live.q_cap first.user_ptr one_booked in (r ≡ r') × Reads a b
free_refines_example = free_refines host one_live-IsValid one_live-Reads first.user_ptr 8192 0

free-IsValid_example : IsValid 2 (free host first.user_ptr 8192 one_live 0).1
free-IsValid_example = free-IsValid host one_live-IsValid first.user_ptr 8192 0

insert-room_test :
    ((insert host second one_live 0).0 ≡ ltb (one_live.live + one_live.q_len) one_live.cap)
    × (((insert host second one_live 0).0 ≡ true) ⊎ ((insert host second one_live 0).1 ≡ one_live))
insert-room_test = insert-room one_live-IsValid host second 0

quarantine-push_test :
    quarantine (quarantine_push host 3 one_live 0).0
    ≡ enqueue one_live.q_cap (quarantine one_live) 3
quarantine-push_test = quarantine-push host one_live 3 0 one_live-IsValid.ring

find_from_iff_test :
    (find_from one_live.slots one_live.mask first.user_ptr one_live.cap
        (home one_live.mask first.user_ptr)
      ≡ some 0)
    ↔ Tracks one_live.slots one_live.cap first.user_ptr 0
find_from_iff_test = find_from_iff one_live-IsValid.indexed first.user_ptr 0

home-eq_iff_example : (home 3 16 ≡ home 3 32) ↔ (16 % 4 ≡ 32 % 4)
home-eq_iff_example = home-eq_iff start-IsValid.indexed.table 16 32

home_same_offset_test : home 3 (5 * 2 ^ 12 + 16) ≡ home 3 (9 * 2 ^ 12 + 16)
home_same_offset_test = home_same_offset start-IsValid.indexed.table 12 5 9 16 (omega arith)

only_slot : (addr i : ℕ) → Holds one_live.slots 4 addr i → 0 ≡ i
unfolding insert find_vacant home hash
only_slot addr i h = ground arith

one_live-IsApart : IsApart one_live.slots one_live.cap
unfolding insert find_vacant home hash
one_live-IsApart = record {
  apart = λ addr i j h h'. sym (only_slot addr i h) ∙ only_slot addr j h';
}

free-classify_test :
    classify 4096 (free host first.user_ptr 8192 one_live 0).1 0x10ff8
    ≡ record (info_of 4096 one_live.slots 0x10ff8 0) { kind = use_after_free }
unfolding insert find_vacant home hash
free-classify_test =
    free-classify host one_live-IsValid first.user_ptr 0 8192 0 (omega arith, refl, refl) refl 4096
      0x10ff8 one_live-IsApart refl

-- The tests of the source, on a world in which no call fails.
insert_lookup_roundtrip_test : insert_lookup_roundtrip host 0 ≡ true
unfolding insert find_vacant home hash state_of find_locked find_from insert_keys all_ready next
insert_lookup_roundtrip_test = refl

collisions_probe_then_fill_test : collisions_probe_then_fill host 0 ≡ true
unfolding insert find_vacant home hash state_of find_locked find_from insert_keys all_ready next
    keys_from
collisions_probe_then_fill_test = refl

-- Four keys with one probe start fill the four slots.
abbrev colliding : List ℕ
colliding = 16 ∷ 32 ∷ 48 ∷ 64 ∷ []

insert_keys-finds_example :
    let (all_fit, a) = insert_keys host 0 colliding (new (2 ^ 2) 1) in
    (all_fit ≡ true)
    × (a.live ≡ 4)
    × (state_of a 80 ≡ none)
    × (elem 80 colliding ≡ false → (insert_key host 0 80 a).0 ≡ false)
insert_keys-finds_example =
    insert_keys-finds host 0 2 1 colliding (omega arith) (omega arith) (omega arith)
      (refl, (refl, (refl, (refl, tt)))) (omega arith) 80
