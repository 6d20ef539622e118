-- ===== src/Inspect.antt =====
-- src/lib.rs, the inspection API: `slot_state`, `live_count`, `eviction_count` and `quarantine_len`, on
-- the arena that `registry()` returns.
pub mod Accounts
pub mod Rounds
pub mod Tests
use Prim.Native.String.{String}
use coffin.Prelude.{ℕ, Option, none, some}
use coffin.Registry.{SlotState, ready, freed, Arena, state_of}

-- The name of a published state.
abbrev pub state_name : Option SlotState → Option String
state_name (some ready) = some "ready"
state_name (some freed) = some "freed"
state_name _ = none

unfoldable pub slot_state : Arena → ℕ → Option String
slot_state a ptr = state_name (state_of a ptr)

abbrev pub live_count : Arena → ℕ
live_count a = a.live

abbrev pub eviction_count : Arena → ℕ
eviction_count a = a.evictions

abbrev pub quarantine_len : Arena → ℕ
quarantine_len a = a.q_len
