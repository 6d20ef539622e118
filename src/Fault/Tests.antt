-- ===== src/Fault/Tests.antt =====
-- Addresses in and around one tracked region.
use coffin.Prelude.{ℕ, ◌+◌, ◌<◌, ◌≡◌, ◌⊎◌, refl, sym, ◌∙◌, [], arith, update, word}
use mathlib.Core.Path.{subst}
use native.Mathlib.Decide.{ℕ_discrete}
use coffin.Registry.{Region, Arena, ready, new}
use coffin.Fault.{wild, overflow, info_of, kind_of, classify}
use coffin.Fault.Scan.{Holds, IsApart, classify-Holds}
use coffin.Fault.Reported.{IsTracked, IsAt, IsReport, IsInSpace, classify-IsReport}

-- Two pages at 0x10000, the second of which is the guard page.
abbrev pub region : Region
region = record {
  state = ready;
  base = 0x10000;
  total_len = 8192;
  user_ptr = 0x10ff0;
  size = 16;
  align = 16;
  guard_addr = 0x11000;
  alloc_ips = [];
  free_ips = [];
}

abbrev pub arena : Arena
arena = record (new 4 1) { slots = update (new 4 1).slots 2 region }

only_slot : (addr i : ℕ) → Holds arena.slots 4 addr i → 2 ≡ i
only_slot addr i h = ground arith

pub arena-IsApart : IsApart arena.slots 4
arena-IsApart = record { apart = λ addr i j h h'. sym (only_slot addr i h) ∙ only_slot addr j h' }

classify-Holds_test : classify 4096 arena 0x11000 ≡ info_of 4096 arena.slots 0x11000 2
classify-Holds_test = classify-Holds 4096 arena 0x11000 arena-IsApart 2 (omega arith, refl, refl)

arena-IsInSpace : (i : ℕ) → i < 4 → IsTracked (arena.slots i) → IsInSpace 4096 (arena.slots i)
arena-IsInSpace i lt t = elim (ℕ_discrete 2 i) [
  | yes e ↦
      subst (λ j. IsInSpace 4096 (arena.slots j)) e
        (record { region = omega arith; guard = omega arith })
  | no ne ↦ absurd (ground arith)
]

-- The first byte past the buffer.
classify-IsReport_example :
    ((i : ℕ) × (i < 4)
      × IsTracked (arena.slots i)
      × IsAt (arena.slots i) 0x11000
      × IsReport 4096 (arena.slots i) 0x11000 i (classify 4096 arena 0x11000)
      × ((j : ℕ) → j < i → IsTracked (arena.slots j) → ¬ IsAt (arena.slots j) 0x11000))
    ⊎ (((classify 4096 arena 0x11000).kind ≡ wild)
        × ((classify 4096 arena 0x11000).slot + 1 ≡ word)
        × ((i : ℕ) → i < 4 → IsTracked (arena.slots i) → ¬ IsAt (arena.slots i) 0x11000))
classify-IsReport_example = classify-IsReport 4096 arena 0x11000 arena-IsInSpace

info_of_test : (info_of 4096 arena.slots 0x11000 2).kind ≡ overflow
unfolding info_of kind_of
info_of_test = refl
