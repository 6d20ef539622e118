-- ===== src/Allocator/Threads/Tests.antt =====
-- Two threads on the small machine, with a table of four slots and a quarantine of one.
use coffin.Prelude.{refl, arith}
use coffin.Config.{above}
use coffin.Samples.{small, small_geometry}
use coffin.Samples.Machine.{machine, machine-IsSystem, fresh_machine}
use coffin.Region.{geometry_for, place, round_up, align_down}
use coffin.Region.Tests.{geometry_for-small, small-IsRequest}
use coffin.Region.Map.{map_region, check_padding, scan_padding}
use coffin.Registry.{
  insert, find_vacant, home, hash, next, free, find_locked, find_from, quarantine_push, seal,
}
use coffin.Allocator.{enter, leave, register, settle}
use coffin.Allocator.Threads.{Team, map, enrol, check, give, Reached, still, later}
use coffin.Allocator.Threads.Regions.{IsSoundTeam}
use coffin.Allocator.Threads.Onward.{IsOnward, to_release, team-Moves}
use coffin.Allocator.Threads.Sound.{start_team, team-IsSoundTeam}

abbrev start : Team machine
start = start_team machine above 12 machine-IsSystem 2 1 fresh_machine

-- Thread 0 has a region and gives it back, while thread 1 has mapped one and registers it last.
team : (t : Team machine) × Reached machine above 12 start t
unfolding enter leave register map_region geometry_for place round_up align_down insert find_vacant
    home hash next free find_locked find_from quarantine_push seal settle check_padding scan_padding
team = (
  _,
  later 1
      (later 0
        (later 0
          (later 0
            (later 1
              (later 0 still
                (map small small_geometry 2 refl refl small-IsRequest geometry_for-small))
              (map small small_geometry 2 refl refl small-IsRequest geometry_for-small))
            (enrol small small_geometry _ _ _ _ refl refl))
          (check 0x10ff0 small small_geometry _ refl (λ p. absurd (omega arith)) refl
            geometry_for-small refl))
        (give 0x10ff0 small small_geometry _ _ refl (λ j t s. (ground arith, refl)) refl))
      (enrol small small_geometry _ _ _ _ refl refl),
)

team-IsSoundTeam_example : IsSoundTeam machine machine-IsSystem above 2 team.0
team-IsSoundTeam_example =
    team-IsSoundTeam machine above 12 machine-IsSystem 2 1 fresh_machine (omega arith) (omega arith)
      (omega arith) team.0 team.1

-- Thread 0 has its region registered.
one_live : (t : Team machine) × Reached machine above 12 start t
unfolding enter leave register map_region geometry_for place round_up align_down insert find_vacant
    home hash next
one_live = (
  _,
  later 0 (later 0 still (map small small_geometry 2 refl refl small-IsRequest geometry_for-small))
      (enrol small small_geometry _ _ _ _ refl refl),
)

team-Moves_example :
    (t' : Team machine) × IsOnward machine above 12 machine-IsSystem 2 0 one_live.0 t'
unfolding one_live enter leave register map_region geometry_for place round_up align_down insert
    find_vacant home hash next
team-Moves_example =
    team-Moves machine above 12 machine-IsSystem 2 1 fresh_machine (omega arith) (omega arith)
      (omega arith) one_live.0 one_live.1 0
      (to_release 0x10ff0 small 2 small_geometry 0 refl (λ p. absurd (omega arith)) small-IsRequest
        geometry_for-small (omega arith, refl, refl) refl (refl, refl, refl))
