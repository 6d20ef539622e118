-- ===== src/Registry.antt =====
-- src/registry.rs: the table of tracked allocations and the quarantine ring. The writers hold the
-- spinlock for the whole of a call, so a call is one step here.
pub mod Lock
pub mod Atomics
pub mod Publish
pub mod Probe
pub mod Hash
pub mod Lookup
pub mod Ring
pub mod Invariant
pub mod Pending
pub mod Quarantine
pub mod Views
pub mod Free
pub mod Room
pub mod Book
pub mod Refine
pub mod Release
pub mod RoundTrip
pub mod Run
pub mod Tests
use coffin.Prelude.{
  ℕ, zero, suc, ◌+◌, ◌-◌, ◌%◌, Bool, true, false, ◌&&◌, ◌||◌, Option, none, some, List, [], ◌∷◌,
  replicate, update, ltb, leb, ◌==◌, if◌then◌else◌, wrapping_add, wrapping_sub, wrapping_mul,
  bit_and,
}
use coffin.Platform.{Platform}

abbrev pub ip_depth : ℕ
ip_depth = 16

-- The values of `Region::state`, EMPTY, READY, FREED and TOMB.
pub data SlotState : Type 0 where
  empty ready freed tomb : SlotState

abbrev pub is_ready : SlotState → Bool
is_ready ready = true
is_ready _ = false

abbrev pub is_freed : SlotState → Bool
is_freed freed = true
is_freed _ = false

-- `st == EMPTY || st == TOMB`
abbrev pub is_vacant : SlotState → Bool
is_vacant empty = true
is_vacant tomb = true
is_vacant _ = false

-- `Region`, one slot
pub record Region : Type 0 where
  pub state : SlotState
  pub base : ℕ
  pub total_len : ℕ
  pub user_ptr : ℕ
  pub size : ℕ
  pub align : ℕ
  pub guard_addr : ℕ
  pub alloc_ips : List ℕ
  pub free_ips : List ℕ

-- A slot of fresh memory: all zeros, and EMPTY is 0.
abbrev pub zeroed : Region
zeroed = record {
  state = empty;
  base = 0;
  total_len = 0;
  user_ptr = 0;
  size = 0;
  align = 0;
  guard_addr = 0;
  alloc_ips = replicate ip_depth 0;
  free_ips = replicate ip_depth 0;
}

-- `Arena`, less the lock. The two mappings are functions of the index.
pub record Arena : Type 0 where
  pub slots : ℕ → Region
  pub cap : ℕ
  pub mask : ℕ
  pub ring : ℕ → ℕ
  pub q_cap : ℕ
  pub q_tail : ℕ
  pub q_len : ℕ
  pub live : ℕ
  pub evictions : ℕ
  pub full_warned : Bool

-- The value that `Arena::new` builds on two fresh mappings.
abbrev pub new : ℕ → ℕ → Arena
new cap q_cap = record {
  slots = λ _. zeroed;
  cap = cap;
  mask = wrapping_sub cap 1;
  ring = λ _. 0;
  q_cap = q_cap;
  q_tail = 0;
  q_len = 0;
  live = 0;
  evictions = 0;
  full_warned = false;
}

unfoldable pub hash : ℕ → ℕ
hash ptr = wrapping_mul ptr 0x9E37_79B9_7F4A_7C15

-- `hash(ptr) & self.mask`
unfoldable pub home : ℕ → ℕ → ℕ
unfolding hash
home mask ptr = bit_and (hash ptr) mask

-- `(idx + 1) & self.mask`
unfoldable pub next : ℕ → ℕ → ℕ
next mask idx = bit_and (wrapping_add idx 1) mask

-- `capture_ips`, on the frames of the walk and the places left: what does not fit is dropped, and
-- the places left over are zeroed.
unfoldable pub capture : ℕ → List ℕ → List ℕ
capture zero frames = []
capture (suc n) [] = 0 ∷ capture n []
capture (suc n) (ip ∷ frames) = ip ∷ capture n frames

unfoldable pub capture_ips : List ℕ → List ℕ
unfolding capture
capture_ips frames = capture ip_depth frames

-- The loop of `insert`: the slot at which it stores.
unfoldable pub find_vacant : (ℕ → Region) → ℕ → ℕ → ℕ → Option ℕ
find_vacant slots mask zero idx = none
find_vacant slots mask (suc n) idx =
    let rest = find_vacant slots mask n (next mask idx) in
    if is_vacant (slots idx).state then some idx else rest

-- The loop of `find_locked` and of `state_of`: the slot at which it returns.
unfoldable pub find_from : (ℕ → Region) → ℕ → ℕ → ℕ → ℕ → Option ℕ
find_from slots mask ptr zero idx = none
find_from slots mask ptr (suc n) idx =
    let rest = find_from slots mask ptr n (next mask idx) in
    elim (slots idx).state [
      | empty ↦ none
      | tomb ↦ rest
      | _ ↦ if (slots idx).user_ptr == ptr then some idx else rest
    ]

unfoldable pub find_locked : Arena → ℕ → Option ℕ
find_locked a ptr = find_from a.slots a.mask ptr a.cap (home a.mask ptr)

-- `state_of`: the same loop, with the state that it loaded.
unfoldable pub state_of : Arena → ℕ → Option SlotState
unfolding find_locked
state_of a ptr = elim (find_locked a ptr) [ none ↦ none | some idx ↦ some (a.slots idx).state ]

-- The arguments of `insert`.
pub record Entry : Type 0 where
  pub base : ℕ
  pub total_len : ℕ
  pub user_ptr : ℕ
  pub size : ℕ
  pub align : ℕ
  pub guard_addr : ℕ

-- The stores of `insert` into its slot.
abbrev pub publish : Entry → List ℕ → Region → Region
publish e ips slot = record slot {
  base = e.base;
  total_len = e.total_len;
  user_ptr = e.user_ptr;
  size = e.size;
  align = e.align;
  guard_addr = e.guard_addr;
  alloc_ips = ips;
  state = ready;
}

module _ (os : Platform) where
  open os use {World, mprotect_none, munmap, trace}

  unfoldable pub insert : Entry → Arena → World → Bool × Arena
  insert e a w = elim (find_vacant a.slots a.mask a.cap (home a.mask e.user_ptr)) [
    | none ↦ (false, a)
    | some idx ↦ (
      true,
      record a {
        slots = update a.slots idx (publish e (capture_ips (trace w)) (a.slots idx));
        live = wrapping_add a.live 1;
      },
    )
  ]

  unfoldable pub evict : ℕ → Arena → World → Arena × World
  evict idx a w =
      let slot = a.slots idx in
      (
        record a {
          slots = update a.slots idx (record slot { state = tomb });
          evictions = wrapping_add a.evictions 1;
        },
        munmap slot.base slot.total_len w,
      )

  unfoldable pub quarantine_push : ℕ → Arena → World → Arena × World
  unfolding evict
  quarantine_push idx a w =
      if a.q_len == a.q_cap
      then (let (b, w') = evict (a.ring a.q_tail) a w in
          (
            record b {
              ring = update b.ring a.q_tail idx;
              q_tail = wrapping_add a.q_tail 1 % a.q_cap;
            },
            w',
          ))
      else (
        record a {
          ring = update a.ring (wrapping_add a.q_tail a.q_len % a.q_cap) idx;
          q_len = wrapping_add a.q_len 1;
        },
        w,
      )

  -- The stores of `free` into its slot, and the seal, before the slot goes into quarantine.
  unfoldable pub seal : ℕ → ℕ → Arena → World → Arena × World
  seal idx total_len a w =
      let slot = a.slots idx in
      (
        record a {
          slots =
              update a.slots idx (record slot { free_ips = capture_ips (trace w); state = freed });
          live = wrapping_sub a.live 1;
        },
        (mprotect_none slot.base total_len w).1,
      )

  -- `some true`: freed; `some false`: a double free; `none`: no allocation of ours.
  unfoldable pub free : ℕ → ℕ → Arena → World → Option Bool × Arena × World
  unfolding seal quarantine_push
  free ptr total_len a w = elim (find_locked a ptr) [
    | none ↦ (none, a, w)
    | some idx ↦
        if is_freed (a.slots idx).state
        then (some false, a, w)
        else (let (b, w') = seal idx total_len a w in
            let (c, w'') = quarantine_push idx b w' in (some true, c, w''))
  ]
