-- ===== src/Startup/Tests.antt =====
-- A process with no settings, on a system whose state is the next free address.
use coffin.Prelude.{
  ℕ, ◌≡◌, ◌≤◌, ◌<◌, ◌*◌, ◌^◌, ◌⊎◌, refl, true, false, none, some, arith, word, ◌+◌,
}
use coffin.Samples.{host}
use coffin.Config.{quarantine_cap, parse_usize_env, max_live_slots, next_pow2, bit_length}
use coffin.Registry.{Arena, new}
use coffin.Startup.{
  Statics, created, too_large, aborted, map_raw, arm, rearm, registry, create, install,
}
use coffin.Startup.Once.{start, arming, table_bytes, ring_bytes, IsBuilt, create-cases, arm-again}

abbrev fresh : Statics
fresh = record { alt_stack = false; arena = none }

-- A signal stack and a disposition each take one address.
abbrev alt : ℕ → ℕ → ℕ → ℕ
alt addr size w = w + 1

abbrev act : ℕ → ℕ → ℕ
act signal w = w + 1

abbrev bytes : ℕ
bytes = table_bytes host alt act 11 7 8192 none none

abbrev places : ℕ
places = ring_bytes host alt act 11 7 8192 none none

small_ring : quarantine_cap none * 8 < word
unfolding quarantine_cap parse_usize_env
small_ring = omega arith

create-cases_example :
    ((start host alt act 11 7 8192 none none fresh 0x1000 ≡ too_large) × (word ≤ bytes))
    ⊎ ((start host alt act 11 7 8192 none none fresh 0x1000
          ≡ aborted (
              host.write_stderr "coffin: FATAL: failed to mmap registry arena\n"
                (map_raw host places (map_raw host bytes 0x1000).1).1))
        × (bytes < word)
        × (((map_raw host bytes 0x1000).0 ≡ 0)
            ⊎ ((map_raw host places (map_raw host bytes 0x1000).1).0 ≡ 0)))
    ⊎ ((a : Arena) × (w' : ℕ) × (start host alt act 11 7 8192 none none fresh 0x1000
          ≡ created a (record { alt_stack = true; arena = some a }) w')
        × IsBuilt host alt act 11 7 8192 none none fresh 0x1000 a w')
create-cases_example = create-cases host alt act 11 7 8192 none none fresh 0x1000 small_ring

abbrev first : Arena
first = new (2 ^ 20) 4096

abbrev started : Statics
started = record { alt_stack = true; arena = some first }

-- The table, the ring and the signal stack lie one behind the other.
first-arming :
    arming host alt act 11 7 8192 none none fresh 0x1000
    ≡ created first started (0x1000 + 2 ^ 20 * 312 + 32768 + 65536 + 5)
unfolding arm rearm registry create install max_live_slots quarantine_cap parse_usize_env next_pow2
    bit_length
first-arming = refl

arm-again_example :
    arming host alt act 11 7 8192 none none started 0x7000 ≡ created first started 0x7002
arm-again_example =
    arm-again host alt act 11 7 8192 none none fresh started 0x1000
      (0x1000 + 2 ^ 20 * 312 + 32768 + 65536 + 5) 0x7000 first first-arming
