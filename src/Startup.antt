-- ===== src/Startup.antt =====
-- src/lib.rs (`arm`), src/registry.rs (`Arena::new`, `registry`, `try_get`), src/handler.rs (`install`)
-- and src/region.rs (`map_raw`): what the process sets up on its first allocation. `sigaltstack`, of an
-- address and a size, and `sigaction`, which gives a signal to the handler, are libc's.
pub mod Once
pub mod Tests
use coffin.Prelude.{
  ℕ, ◌*◌, Bool, true, false, ◌||◌, Option, none, some, List, leb, ◌==◌, if◌then◌else◌, word,
  wrapping_mul,
}
use Prim.Native.Nat.{max}
use coffin.Config.{max_live_slots, quarantine_cap}
use coffin.Platform.{Platform}
use coffin.Registry.{Arena, new}

-- `size_of::<Region>()` where a pointer has 8 bytes: the state, padded, six words and two stacks.
abbrev pub region_size : ℕ
region_size = 312

-- `ALT_STACK` and `REGISTRY`, both set once.
pub record Statics : Type 0 where
  pub alt_stack : Bool
  pub arena : Option Arena

-- How `Arena::new` ends: with an arena, by the panic of `expect`, or by `abort`.
pub data Outcome (World : Type 0) : Type 0 where
  created : Arena → Statics → World → Outcome World
  too_large : Outcome World
  aborted : World → Outcome World

abbrev pub try_get : Statics → Option Arena
try_get st = st.arena

-- The address, 0 for the null pointer.
abbrev pub map_raw : (os : Platform) → ℕ → os.World → ℕ × os.World
map_raw os len w = let (p, w') = os.mmap len w in elim p [ none ↦ (0, w') | some addr ↦ (addr, w') ]

module _ (os : Platform) (sigaltstack : ℕ → ℕ → os.World → os.World)
    (sigaction : ℕ → os.World → os.World) (sigsegv sigbus sigstksz : ℕ) where
  open os use {World, write_stderr}

  -- The closure of `call_once`, less the two settings that it reads ahead.
  abbrev pub alternate : World → World
  alternate w =
      let size = max sigstksz (64 * 1024) in
      let (mem, w') = map_raw os size w in if mem == 0 then w' else sigaltstack mem size w'

  -- The two dispositions, asserted on every call.
  abbrev pub dispositions : World → World
  dispositions w = sigaction sigbus (sigaction sigsegv w)

  unfoldable pub install : Statics → World → Statics × World
  install st w =
      (record st { alt_stack = true }, dispositions (if st.alt_stack then w else alternate w))

  -- `Arena::new`, on the values of COFFIN_MAX_LIVE and COFFIN_QUARANTINE.
  unfoldable pub create : Option (List ℕ) → Option (List ℕ) → Statics → World → Outcome World
  create max_live quarantine st w =
      let cap = max_live_slots max_live in
      let q_cap = quarantine_cap quarantine in
      let (slots, w₁) = map_raw os (cap * region_size) w in
      let (ring, w₂) = map_raw os (wrapping_mul q_cap 8) w₁ in
      if leb word (cap * region_size)
      then too_large
      else if slots == 0 || ring == 0
      then aborted (write_stderr "coffin: FATAL: failed to mmap registry arena\n" w₂)
      else (let (st', w₃) = install st w₂ in
          let a = new cap q_cap in created a (record st' { arena = some a }) w₃)

  -- `registry`: `REGISTRY.get_or_init(Arena::new)`
  unfoldable pub registry : Option (List ℕ) → Option (List ℕ) → Statics → World → Outcome World
  registry max_live quarantine st w = elim st.arena [
    | none ↦ create max_live quarantine st w
    | some a ↦ created a st w
  ]

  -- `arm`, on what `registry` comes to.
  unfoldable pub rearm : Outcome World → Outcome World
  unfolding install
  rearm (created a st w) = let (st', w') = install st w in created a st' w'
  rearm too_large = too_large
  rearm (aborted w) = aborted w

  unfoldable pub arm : Option (List ℕ) → Option (List ℕ) → Statics → World → Outcome World
  unfolding registry rearm
  arm max_live quarantine st w = rearm (registry max_live quarantine st w)
