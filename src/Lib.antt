-- ===== src/Lib.antt =====
-- Coffin is a global allocator that puts every allocation on pages of its own next to a guard page
-- that cannot be touched, seals a freed region for as long as it is in quarantine, and reports a
-- fault on such a page with the allocation that it belongs to. This library models it and proves
-- what its parts promise.
--
-- The parts, their files here and their code:
--
-- * Config (src/config.rs): the variables of the environment as functions of their values. `mode`,
--   `on_fault`, `max_live_slots`, `quarantine_cap` and `parse_usize_env` have the source's names;
--   `is_on` is the test that `symbolize` and `annotate` share. Config/Parse says what the digit loop
--   reads, Config/Sizes what `next_pow2` makes of it.
-- * Region (src/region.rs): `round_up`, `align_down` and `geometry_for` in `usize` arithmetic, with
--   `place` for the two branches; a failed assertion is `none`. Region/Map has `map_region` and
--   `check_padding`; Region/Bounds has the theorems on the geometry, Region/Cases the unit
--   tests.
-- * Platform (code that is not here): what lies below the program, a parameter of everything that
--   uses it, namely `mmap`, `mprotect`, `munmap`, memory, the stack walk, the system allocator and
--   stderr. Platform/Laws says what these do to the access of each address; Samples/Machine is a
--   machine that obeys the laws.
-- * Registry (src/registry.rs, the writers): `Arena` with its two mappings as functions of the index,
--   `hash`, `insert`, `find_locked`, `free`, `quarantine_push`, `evict` and `state_of`. The loops of
--   `insert` and `find_locked` are `find_vacant` and `find_from`, with the rounds left as an argument,
--   `cap` at the start; `seal` is `free` up to its call of `quarantine_push`.
--   Below it: Probe and Lookup (the probe loops), Hash (where a probe starts), Ring (the ring as a
--   queue), Invariant, Pending, Quarantine and Free (the invariant of the arena), Views (the state of a
--   pointer as a lookup gives it), Room (when the table is full), Book (an abstract registry), Refine,
--   Release and Run (the arena against the book), RoundTrip (the unit tests, and what they try for all
--   keys).
-- * Registry/Lock (src/registry.rs, `SpinLock`): the lock as a step relation over any number of
--   threads. A section is a function from what is found under the lock to the stores to make.
--   Lock/Serial has the invariant of all reachable states, Lock/Exclusion what follows from it.
-- * Registry/Publish (src/registry.rs): the stores of `insert`, `free`, `quarantine_push` and `evict`
--   one at a time. Publish/Looks and Publish/Unseen say what a reader without the lock sees between
--   them, Publish/Writers that the writers under the lock act like whole calls.
-- * Registry/Atomics (src/registry.rs): the orderings of the atomic accesses, as the release/acquire
--   model has them: every place keeps its messages and every thread a view. `Acts` is one access,
--   `Inserting` is the stores of `insert` into a slot with those of other threads between them.
--   Atomics/Coherence, Taken and Held have what the lock does to the views, Atomics/Kept, Filled and
--   Published what a reader finds after the state.
-- * Fault (src/registry.rs, the reader): `classify` and `read_ips`; Fault/Scan and Fault/Reported have
--   the theorems, and Fault/Apart is on regions that do not overlap. Fault/Loads has `classify` with
--   every load a step, Loads/Steps takes it slot by slot; Loads/Torn, Loads/Steady and Loads/Sealing are
--   on what it answers while writers store.
-- * Allocator (src/lib.rs): `enter`, `leave`, `alloc`, `dealloc`, `coffin_alloc`, `coffin_dealloc`.
--   `register` is `coffin_alloc` from the result of `map_region` on, `settle` is `coffin_dealloc` from
--   the result of `free` on. Allocator/Fenced is on what an allocation gets, Allocator/Detect on faults
--   next to it, Fault/Freed on faults in a freed region. Allocator/Guarded has the invariant that ties
--   the arena to the access of memory, with a module for each operation; Allocator/Process has whole
--   runs of `alloc` and `dealloc`, and says what a client may call.
--   Allocator/Threads has any number of threads: `Moves` is a step of a call, two for each call that
--   the reentrancy guard lets in. Threads/Regions has the invariant, with the regions that are mapped
--   and not yet registered; Threads/First is on the first steps, Register and Give on the second, Sound
--   and Onward on whole runs.
-- * Startup (src/registry.rs, `Arena::new`, `registry` and `try_get`; src/handler.rs, `install`;
--   src/lib.rs, `arm`; src/region.rs, `map_raw`): `create` is `Arena::new`, and `Outcome` says how it
--   ends. Startup/Once has the theorems.
-- * Inspect (src/lib.rs): `slot_state`, `live_count`, `eviction_count`, `quarantine_len`.
--   Inspect/Accounts relates them to each call, Inspect/Rounds to the loop of examples/inspect.rs.
-- * Handler (src/handler.rs): `report` as the list of the pieces it writes, with `offset_line`,
--   `region_lines`, `dump_stack` and `symbolize_ip`. Handler/Handle has `handle`, with the annotations,
--   the reentrancy guard that it forces and its end; Handler/Annotate has `emit_annotations`,
--   `emit_site` and `relativize`. Handler/Caught ties the allocator, the access of memory and the
--   report together: Caught/Guard for a guard page, Caught/Freed for a freed region.
-- * Examples (examples/overflow.rs, uaf.rs, wild.rs): the programs from their call of `arm` to their
--   end, as a `Program` that passes the thread's guard, the arena and the rest of the world on. A store
--   of the program itself is a parameter, and a fault of it runs `handle`. Examples/Memory says what the
--   programs rely on, with a lemma for each step; Examples/Killed has how they end. Examples/Once is one
--   allocation and its release. Examples/Inspect is examples/inspect.rs: `seal_check` is its first half,
--   with the child that it forks as a copy of the task, and `churn` the loop of its second half;
--   Inspect/Ample is a system that serves enough mappings, Inspect/Churn has the rounds, Inspect/Outcome
--   how the program ends.
-- * Report (src/report.rs): the bytes of `write_dec` and `write_hex`, with their theorems in
--   Report/Decimal and Report/Hexadecimal; Report/Output has the loop of `raw_write_fd`.
-- * Prelude has the shared names and lemmas; Samples, Allocator/Runs and the modules called Tests have
--   the runs.
--
-- How they interact: `alloc` computes a geometry, maps a region, and inserts it into the arena;
-- `dealloc` looks the pointer up in the arena, seals its region and puts its slot into quarantine,
-- from which the oldest is unmapped when it is full; a fault asks the arena for the region.
--
-- `usize` has 64 bits, and arithmetic on it wraps around, as in a release build; the shift of
-- `next_pow2` takes its count modulo 64. A loop over the table has the table's size as its rounds,
-- the decimal loop the 20 places of its buffer, and the width of a word 64 rounds.
-- The loop around `write` has one round more than the slice has bytes, which is enough, since a `write`
-- that does not fail takes at least one.
--
-- Not modelled: the caches of the configuration, `fault_addr`, what the examples print, and the
-- example ok.rs, which uses only collections of the standard library. Outside Registry/Atomics the
-- steps of the threads are sequentially consistent, and outside Fault/Loads the loads of one lookup
-- come together; in Registry/Atomics a load takes no value from a later store. Except in Registry/Lock,
-- Registry/Publish and Registry/Atomics a call under the spinlock is one step. Addresses that `mmap`
-- returns and the frames of a stack walk come from the platform; where a theorem needs that a mapped
-- region is new and inside the address space, it says so.
pub mod Prelude
pub mod Config
pub mod Examples
pub mod Region
pub mod Platform
pub mod Report
pub mod Registry
pub mod Allocator
pub mod Fault
pub mod Handler
pub mod Startup
pub mod Inspect
pub mod Samples
