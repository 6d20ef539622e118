-- ===== src/Registry/Publish.antt =====
-- src/registry.rs: the stores of `insert` and of `free` one at a time, as a reader that takes no lock
-- comes between them. The words of a captured stack count as one store: no lookup reads them.
pub mod Looks
pub mod Unseen
pub mod Writers
pub mod Tests
use coffin.Prelude.{
  ℕ, ◌%◌, Bool, true, false, Option, none, some, List, [], ◌∷◌, ◌++◌, update, ◌==◌, if◌then◌else◌,
  wrapping_add, wrapping_sub,
}
use mathlib.Core.List.{map}
use coffin.Platform.{Platform}
use coffin.Registry.{
  ready, freed, tomb, is_freed, Region, Arena, Entry, home, find_vacant, find_locked, capture_ips,
}
use coffin.Registry.Lock.{Section}

abbrev pub store_slot : ℕ → (Region → Region) → Arena → Arena
store_slot i f a = record a { slots = update a.slots i (f (a.slots i)) }

-- "Fill every field first..."
abbrev pub fill : Entry → List ℕ → List (Region → Region)
fill e ips =
    (λ r. record r { base = e.base })
    ∷ (λ r. record r { total_len = e.total_len })
    ∷ (λ r. record r { user_ptr = e.user_ptr })
    ∷ (λ r. record r { size = e.size })
    ∷ (λ r. record r { align = e.align })
    ∷ (λ r. record r { guard_addr = e.guard_addr })
    ∷ (λ r. record r { alloc_ips = ips })
    ∷ []

-- "...then publish", and the count of the live regions.
abbrev pub insert_stores : Entry → List ℕ → ℕ → List (Arena → Arena)
insert_stores e ips i =
    map (store_slot i) (fill e ips)
    ++ store_slot i (λ r. record r { state = ready })
      ∷ (λ a. record a { live = wrapping_add a.live 1 })
      ∷ []

-- The stores of `free` into its slot; the seal itself is no store into the arena.
abbrev pub seal_stores : List ℕ → ℕ → List (Arena → Arena)
seal_stores ips i =
    store_slot i (λ r. record r { free_ips = ips })
    ∷ store_slot i (λ r. record r { state = freed })
    ∷ (λ a. record a { live = wrapping_sub a.live 1 })
    ∷ []

-- The calls of the writers as sections of the lock, on the arena and the world.
module _ (os : Platform) where
  open os use {World, mprotect_none, munmap, trace}

  abbrev pub in_arena : (Arena → Arena) → Arena × World → Arena × World
  in_arena f (a, w) = (f a, w)

  -- `insert`, by the slot that it finds: nothing is stored if the table is full.
  abbrev pub insert_at : Entry → World → Option ℕ → List (Arena × World → Arena × World)
  insert_at e w none = []
  insert_at e w (some i) = map in_arena (insert_stores e (capture_ips (trace w)) i)

  abbrev pub inserting : Entry → Section (Arena × World)
  inserting e (a, w) = insert_at e w (find_vacant a.slots a.mask a.cap (home a.mask e.user_ptr))

  -- `quarantine_push`, `evict` included.
  abbrev pub push_stores : ℕ → Arena → List (Arena × World → Arena × World)
  push_stores idx a =
      if a.q_len == a.q_cap
      then ((λ (b, w).
            let slot = b.slots (b.ring b.q_tail) in (b, munmap slot.base slot.total_len w))
          ∷ in_arena (λ b. store_slot (b.ring b.q_tail) (λ r. record r { state = tomb }) b)
          ∷ in_arena (λ b. record b { evictions = wrapping_add b.evictions 1 })
          ∷ in_arena (λ b. record b { ring = update b.ring b.q_tail idx })
          ∷ in_arena (λ b. record b { q_tail = wrapping_add b.q_tail 1 % b.q_cap })
          ∷ [])
      else (in_arena
            (λ b. record b { ring = update b.ring (wrapping_add b.q_tail b.q_len % b.q_cap) idx })
          ∷ in_arena (λ b. record b { q_len = wrapping_add b.q_len 1 })
          ∷ [])

  -- `free`, by the slot that it finds and whether that is freed: nothing is stored if the pointer is
  -- unknown or freed.
  abbrev pub free_slot : ℕ → Arena → World → ℕ → Bool → List (Arena × World → Arena × World)
  free_slot total_len a w i true = []
  free_slot total_len a w i false =
      in_arena (store_slot i (λ r. record r { free_ips = capture_ips (trace w) }))
      ∷ (λ (b, w'). (b, (mprotect_none (a.slots i).base total_len w').1))
      ∷ in_arena (store_slot i (λ r. record r { state = freed }))
      ∷ in_arena (λ b. record b { live = wrapping_sub b.live 1 })
      ∷ push_stores i a

  abbrev pub free_at : ℕ → Arena → World → Option ℕ → List (Arena × World → Arena × World)
  free_at total_len a w none = []
  free_at total_len a w (some i) = free_slot total_len a w i (is_freed (a.slots i).state)

  abbrev pub freeing : ℕ → ℕ → Section (Arena × World)
  freeing ptr total_len (a, w) = free_at total_len a w (find_locked a ptr)
