-- ===== src/Registry/Atomics/Tests.antt =====
-- Executions of the accesses of src/registry.rs, two threads on zeroed memory.
use coffin.Prelude.{ℕ, ◌<◌, ◌≡◌, refl, true, ◌⊎◌, inl, none, List, [], ◌∷◌, arith, update}
use coffin.Registry.{Entry}
use coffin.Registry.Atomics.{
  relaxed, acquire, Message, Execution, held, after_load, carried, load_by, store_by, lock_by,
  unlock_by, store, lock, spin, unlock, Acted, still, later, zeroed, fill_order, publish_order,
  state_place, field_place, words_from, insert_fields, Inserting, fill_field, publish_state,
  meanwhile,
}
use coffin.Registry.Atomics.Held.{holder-newest}
use coffin.Registry.Atomics.Filled.{InFields}
use coffin.Registry.Atomics.Published.{insert-published, state-newest}

-- The message that zeroed memory has at every place.
abbrev zero : Message
zero = record { value = 0; view = λ y. 0 }

abbrev first_locked : Execution
first_locked = lock_by 0 0 zero zeroed

first_locked-Acted : Acted zeroed first_locked
first_locked-Acted = later 0 still (lock 0 zero refl refl refl (omega arith) refl)

-- Thread 0 stores a 7 into the base of slot 0 and gives the lock back.
abbrev first_stored : Execution
first_stored = store_by 0 fill_order (field_place 0 0) 1 7 first_locked

first_stored-Acted : Acted zeroed first_stored
unfolding after_load
first_stored-Acted =
    later 0 first_locked-Acted
      (store fill_order (field_place 0 0) 1 7 (λ p. absurd (omega arith)) refl (omega arith) refl)

abbrev first_unlocked : Execution
first_unlocked = unlock_by 0 2 first_stored

-- The message with which it does.
abbrev given : Message
given = record {
  value = 0;
  view = update (update (update (after_load acquire (λ x. 0) held 0 zero) held 1) 2 1) held 2;
}

-- Then thread 1 has it.
abbrev second_locked : Execution
second_locked = lock_by 1 2 given first_unlocked

second_locked-Acted : Acted zeroed second_locked
unfolding carried after_load
second_locked-Acted =
    later 1 (later 0 first_stored-Acted (unlock 2 refl (omega arith) refl))
      (lock 2 given refl refl refl (omega arith) refl)

-- It reads no 0 there any more.
holder-newest_example :
    (second_locked.holds 0 ≡ true → ◌≡◌ {A = ℕ} 1 0)
    × (1 < 2 → second_locked.messages (field_place 0 0) 2 ≡ none)
unfolding carried after_load
holder-newest_example =
    holder-newest second_locked-Acted 1 refl (field_place 0 0) 1 (λ p. absurd (omega arith))
      (omega arith) 0 2

-- Thread 0 inserts an entry into slot 0, with a stack of one frame.
abbrev entry : Entry
entry = record {
  base = 4096;
  total_len = 8192;
  user_ptr = 8064;
  size = 128;
  align = 8;
  guard_addr = 8192;
}

-- The execution after the first `n` of its stores of fields.
filled : List (ℕ × ℕ) → Execution → Execution
filled [] e = e
filled ((x, value) ∷ rest) e = filled rest (store_by 0 fill_order x 1 value e)

abbrev fields : List (ℕ × ℕ)
fields = insert_fields 0 entry (77 ∷ [])

-- Thread 1 sees that the lock is held, before the stores.
abbrev taken : Message
taken = record { value = 1; view = update (λ x. 0) held 1 }

abbrev spun : Execution
spun = load_by 1 relaxed held 1 taken first_locked

abbrev before_publish : Execution
before_publish = filled fields spun

abbrev end : Execution
end = store_by 0 publish_order (state_place 0) 1 1 before_publish

first_locked-Inserting : Inserting 0 0 1 fields first_locked end
unfolding insert_fields words_from filled after_load
first_locked-Inserting =
    meanwhile 1 _ _ _ _ (λ p. absurd (omega arith)) (spin 1 taken refl refl (omega arith))
      (fill_field _ 1 _ _ _ _ (omega arith) refl (
        fill_field _ 1 _ _ _ _ (omega arith) refl (
          fill_field _ 1 _ _ _ _ (omega arith) refl (
            fill_field _ 1 _ _ _ _ (omega arith) refl (
              fill_field _ 1 _ _ _ _ (omega arith) refl (
                fill_field _ 1 _ _ _ _ (omega arith) refl (
                  fill_field _ 1 _ _ _ _ (omega arith) refl
                    (publish_state _ (omega arith) refl))))))))

-- Thread 1 finds READY, and then the base.
abbrev ready : Message
ready = record { value = 1; view = carried publish_order (before_publish.view 0) (state_place 0) 1 }

abbrev base_filled : Message
base_filled = record { value = 4096; view = carried fill_order (spun.view 0) (field_place 0 0) 1 }

insert-published_example :
    (ready.value ≡ 1) × ((base_filled.value ≡ 4096) ⊎ (end.messages (field_place 0 0) 1 ≡ none))
unfolding insert_fields words_from filled carried after_load InFields
insert-published_example =
    insert-published first_locked-Acted 0 refl 0 1 entry (77 ∷ []) first_locked-Inserting still 1
      ready refl still (field_place 0 0) 4096 (inl (refl, refl)) 1 base_filled refl (omega arith)

-- Thread 0 stores FREED into slot 0 behind its other store, and thread 1 finds it.
abbrev freed : Message
freed = record { value = 2; view = carried publish_order (first_stored.view 0) (state_place 0) 1 }

state-newest_example : (freed.value ≡ 2) × (first_stored.messages (field_place 0 0) 2 ≡ none)
unfolding carried after_load
state-newest_example =
    state-newest first_stored-Acted 0 refl 0 1 2 (omega arith) refl still 1 freed refl still
      (field_place 0 0) 1 (λ p. absurd (omega arith)) (omega arith) 2 (omega arith)

-- If the state were loaded with Relaxed, thread 1 could still find a 0 in the base of the entry.
stale_base : (load_by 1 relaxed (state_place 0) 1 ready end).view 1 (field_place 0 0) ≡ 0
unfolding insert_fields words_from filled after_load
stale_base = refl
