-- ===== src/Startup/Once.antt =====
-- What the start-up leaves behind, and what a second call of it does.
use coffin.Prelude.{
  ℕ, ◌*◌, ◌^◌, ◌%◌, ◌≤◌, ◌<◌, ◌≡◌, refl, sym, ap, true, ◌||◌, Option, some, List, ◌⊎◌, inl, inr,
  arith, Bool-cases, leb, ◌==◌, word, wrapping_mul, ◌-◌, Option-cases, ◌≢◌, leb→le, ==_iff, false,
}
use Prim.Native.Nat.{max}
use mathlib.Core.Path.{subst}
use coffin.Config.{
  bit_length, next_pow2, max_live_slots, quarantine_cap, parse_usize_env, default_max_live,
}
use coffin.Platform.{Platform}
use coffin.Registry.{Arena, new, empty}
use coffin.Registry.Invariant.{IsValid, new-IsValid}
use coffin.Startup.{
  alternate, region_size, Statics, Outcome, created, too_large, aborted, map_raw, install, create,
  registry, arm, rearm,
}

-- `next_pow2` gives a power of two below the word size whatever it is given.
next_pow2-pow : (x : ℕ) → (k : ℕ) × (next_pow2 x ≡ 2 ^ k) × (k ≤ 63)
unfolding next_pow2
next_pow2-pow x = elim (Bool-cases (leb x 1)) [
  | inl e ↦ (0, rw (next_pow2, e) refl, omega arith)
  | inr e ↦ (bit_length 64 (x - 1) % 64, rw (next_pow2, e) refl, omega arith)
]

quarantine_cap-pos : (v : Option (List ℕ)) → 0 < quarantine_cap v
unfolding quarantine_cap
quarantine_cap-pos v = omega arith

-- A call that ends with an arena has kept it for later calls.
abbrev IsKept : {World : Type 0} → Outcome World → Type 0
IsKept (created a st w) = st.arena ≡ some a
IsKept too_large = Unit
IsKept (aborted w) = Unit

-- A call that ends with an arena has set both statics.
abbrev IsSettled : {World : Type 0} → Outcome World → Type 0
IsSettled (created a st w) = (st.alt_stack ≡ true) × (st.arena ≡ some a)
IsSettled too_large = Unit
IsSettled (aborted w) = Unit

-- Every number of slots and every ring whose bytes are a word make a valid arena.
new-IsValid_any :
    (max_live quarantine : Option (List ℕ))
    → quarantine_cap quarantine * 8 < word
    → (k : ℕ) × IsValid k (new (max_live_slots max_live) (quarantine_cap quarantine))
unfolding max_live_slots
new-IsValid_any max_live quarantine h =
    let (k, e, small) = next_pow2-pow (parse_usize_env max_live default_max_live) in
    (
      k,
      subst (λ cap. IsValid k (new cap (quarantine_cap quarantine))) (sym e)
          (new-IsValid k (quarantine_cap quarantine) small (quarantine_cap-pos quarantine) h),
    )

module _ (os : Platform) (sigaltstack : ℕ → ℕ → os.World → os.World)
    (sigaction : ℕ → os.World → os.World) (sigsegv sigbus sigstksz : ℕ)
    (max_live quarantine : Option (List ℕ)) where
  -- The bytes of the table, and those asked for the ring.
  abbrev pub table_bytes : ℕ
  table_bytes = max_live_slots max_live * region_size

  abbrev pub ring_bytes : ℕ
  ring_bytes = wrapping_mul (quarantine_cap quarantine) 8

  abbrev pub start : Statics → os.World → Outcome os.World
  start = create os sigaltstack sigaction sigsegv sigbus sigstksz max_live quarantine

  -- The stack for the handler, on the world behind the two mappings: it was set before; or a mapping of
  -- at least SIGSTKSZ bytes and 64 KiB is handed to `sigaltstack`; or that mapping failed.
  pub data IsStack (st : Statics) (w : os.World) : os.World → Type 0 where
    set_before : st.alt_stack ≡ true → IsStack st w w
    set_now :
        (size addr : ℕ)
        → st.alt_stack ≡ false
        → sigstksz ≤ size
        → 2 ^ 16 ≤ size
        → (map_raw os size w).0 ≡ addr
        → addr ≢ 0
        → IsStack st w (sigaltstack addr size (map_raw os size w).1)
    refused :
        (size : ℕ)
        → st.alt_stack ≡ false
        → (map_raw os size w).0 ≡ 0
        → IsStack st w (map_raw os size w).1

  alternate-IsStack :
      (st : Statics) (w : os.World)
      → st.alt_stack ≡ false
      → IsStack st w (alternate os sigaltstack sigaction sigsegv sigbus sigstksz w)
  alternate-IsStack st w fresh =
      let size = max sigstksz (64 * 1024) in
      elim (Bool-cases ((map_raw os size w).0 == 0)) [
        | inl e ↦ rw e (refused size fresh ((==_iff _ 0).0 e))
        | inr e ↦ rw e (
            set_now size (map_raw os size w).0 fresh (omega arith) (omega arith) refl
              (λ p. ground (arith, e, p)))
      ]

  -- An arena on the two mappings made from `w`, and the world that it is returned in: the sizes are those
  -- of the settings, and the mappings have just the bytes for them; the arena is valid and empty; the
  -- stack for the handler is seen to, and the dispositions of both signals come last.
  pub record IsBuilt (st : Statics) (w : os.World) (a : Arena) (w' : os.World) : Type 0 where
    pub exponent : ℕ
    pub valid : IsValid exponent a
    pub cap : a.cap ≡ max_live_slots max_live
    pub q_cap : a.q_cap ≡ quarantine_cap quarantine
    pub slots_whole : a.cap * region_size < word
    pub slots_mapped : (map_raw os (a.cap * region_size) w).0 ≢ 0
    pub ring_mapped : (map_raw os (a.q_cap * 8) (map_raw os (a.cap * region_size) w).1).0 ≢ 0
    pub vacant : (i : ℕ) → (a.slots i).state ≡ empty
    pub counters : (a.live ≡ 0) × (a.q_len ≡ 0) × (a.evictions ≡ 0) × (a.full_warned ≡ false)
    pub armed : os.World
    pub stack : IsStack st (map_raw os (a.q_cap * 8) (map_raw os (a.cap * region_size) w).1).1 armed
    pub last : w' ≡ sigaction sigbus (sigaction sigsegv armed)

  ring_bytes_small :
      quarantine_cap quarantine * 8 < word → ring_bytes ≡ quarantine_cap quarantine * 8
  ring_bytes_small h = omega (arith, h)

  -- What `install` does to the world.
  install-IsStack :
      (st : Statics) (w : os.World)
      → (armed : os.World) × IsStack st w armed
        × ((install os sigaltstack sigaction sigsegv sigbus sigstksz st w).1
            ≡ sigaction sigbus (sigaction sigsegv armed))
  unfolding install
  install-IsStack st w = elim (Bool-cases st.alt_stack) [
    | inl e ↦ (w, set_before e, rw (install, e) refl)
    | inr e ↦ (
      alternate os sigaltstack sigaction sigsegv sigbus sigstksz w,
      alternate-IsStack st w e,
      rw (install, e) refl,
    )
  ]

  new-IsBuilt :
      (st : Statics) (w : os.World)
      → quarantine_cap quarantine * 8 < word
      → table_bytes < word
      → (map_raw os table_bytes w).0 ≢ 0
      → (map_raw os ring_bytes (map_raw os table_bytes w).1).0 ≢ 0
      → IsBuilt st w
          (new (max_live_slots max_live) (quarantine_cap quarantine))
          (install os sigaltstack sigaction sigsegv sigbus sigstksz st
            (map_raw os ring_bytes (map_raw os table_bytes w).1).1).1
  new-IsBuilt st w h small table ring =
      let (k, v) = new-IsValid_any max_live quarantine h in
      let e = ring_bytes_small h in
      let (armed, stack, last) =
        install-IsStack st (map_raw os ring_bytes (map_raw os table_bytes w).1).1 in
      record {
        exponent = k;
        valid = v;
        cap = refl;
        q_cap = refl;
        slots_whole = small;
        slots_mapped = table;
        ring_mapped = subst (λ n. (map_raw os n (map_raw os table_bytes w).1).0 ≢ 0) e ring;
        vacant = λ i. refl;
        counters = (refl, refl, refl, refl);
        armed = armed;
        stack = subst (λ n. IsStack st (map_raw os n (map_raw os table_bytes w).1).1 armed) e stack;
        last = last;
      }

  -- `install` leaves the arena to the caller.
  kept_by :
      (st : Statics) (u : os.World)
      → created
          (new (max_live_slots max_live) (quarantine_cap quarantine))
          (record (install os sigaltstack sigaction sigsegv sigbus sigstksz st u).0 {
            arena = some (new (max_live_slots max_live) (quarantine_cap quarantine));
          })
          (install os sigaltstack sigaction sigsegv sigbus sigstksz st u).1
        ≡ created
            (new (max_live_slots max_live) (quarantine_cap quarantine))
            (record {
              alt_stack = true;
              arena = some (new (max_live_slots max_live) (quarantine_cap quarantine));
            })
            (install os sigaltstack sigaction sigsegv sigbus sigstksz st u).1
  unfolding install
  kept_by st u = refl

  -- If the bytes of the ring are a word, `Arena::new` panics, and then the bytes of the table are no
  -- word; or it aborts with its message, and then these are a word and one of the two mappings failed;
  -- or it returns a valid and empty arena with the sizes of the settings, and keeps it for later calls.
  -- Then the two mappings succeeded with just the bytes of that arena's slots and ring; the stack for
  -- the handler was set before, or `sigaltstack` has got a mapping of at least 64 KiB and SIGSTKSZ
  -- bytes for it, or that mapping failed; and last the dispositions of SIGSEGV and SIGBUS are set.
  pub create-cases :
      (st : Statics) (w : os.World)
      → quarantine_cap quarantine * 8 < word
      → ((start st w ≡ too_large) × (word ≤ table_bytes))
        ⊎ ((start st w
              ≡ aborted (
                  os.write_stderr "coffin: FATAL: failed to mmap registry arena\n"
                    (map_raw os ring_bytes (map_raw os table_bytes w).1).1))
            × (table_bytes < word)
            × (((map_raw os table_bytes w).0 ≡ 0)
                ⊎ ((map_raw os ring_bytes (map_raw os table_bytes w).1).0 ≡ 0)))
        ⊎ ((a : Arena) × (w' : os.World) × (start st w
              ≡ created a (record { alt_stack = true; arena = some a }) w')
            × IsBuilt st w a w')
  unfolding create
  create-cases st w h = elim (Bool-cases (leb word table_bytes)) [
    | inl big ↦ inl (rw (big, create) refl, leb→le word table_bytes big)
    | inr small ↦
        elim (Bool-cases (
          (map_raw os table_bytes w).0 == 0
          || (map_raw os ring_bytes (map_raw os table_bytes w).1).0 == 0)) [
            | inl failed ↦ inr (inl (rw (small, failed, create) refl, ground arith, ground arith))
            | inr fine ↦ inr (
                inr (
                  new (max_live_slots max_live) (quarantine_cap quarantine),
                  (install os sigaltstack sigaction sigsegv sigbus sigstksz st
                      (map_raw os ring_bytes (map_raw os table_bytes w).1).1).1,
                  rw (small, fine, create) (kept_by st _),
                  new-IsBuilt st w h (ground arith) (ground arith) (ground arith),
                ))
          ]
  ]

  create-IsKept : (st : Statics) (w : os.World) → IsKept (start st w)
  unfolding create install
  create-IsKept st w = elim (Bool-cases (leb word table_bytes)) [
    | inl big ↦ rw (big, create) tt
    | inr small ↦
        elim (Bool-cases (
          (map_raw os table_bytes w).0 == 0
          || (map_raw os ring_bytes (map_raw os table_bytes w).1).0 == 0)) [
            | inl failed ↦ rw (small, failed, create) tt
            | inr fine ↦ rw (small, fine, create) refl
          ]
  ]

  abbrev pub arming : Statics → os.World → Outcome os.World
  arming = arm os sigaltstack sigaction sigsegv sigbus sigstksz max_live quarantine

  registry-IsKept :
      (st : Statics) (w : os.World)
      → IsKept (registry os sigaltstack sigaction sigsegv sigbus sigstksz max_live quarantine st w)
  unfolding registry
  registry-IsKept st w = elim (Option-cases st.arena) [
    | inl e ↦ rw (e, registry) (create-IsKept st w)
    | inr (a, e) ↦ rw (e, registry) e
  ]

  rearmed :
      (o : Outcome os.World)
      → IsKept o
      → IsSettled (rearm os sigaltstack sigaction sigsegv sigbus sigstksz o)
  unfolding install rearm
  rearmed (created a st w) kept = (refl, kept)
  rearmed too_large _ = tt
  rearmed (aborted w) _ = tt

  pub arm-settled :
      (st : Statics) (w : os.World) (a : Arena)
      → st.alt_stack ≡ true
      → st.arena ≡ some a
      → arming st w ≡ created a st (sigaction sigbus (sigaction sigsegv w))
  unfolding arm registry rearm install
  arm-settled st w a alt kept =
      rw (arm, registry, kept, rearm, install, alt)
        (ap
          (λ o.
            created a (record { alt_stack = true; arena = o })
              (sigaction sigbus (sigaction sigsegv w)))
          kept)

  -- Where `arm` has ended with an arena, a second `arm`, whatever the process has done since the first,
  -- ends with the same arena and the same statics, and all it does to the world is to set the two
  -- dispositions again, SIGSEGV first.
  pub arm-again :
      (st st' : Statics) (w w' later : os.World) (a : Arena)
      → arming st w ≡ created a st' w'
      → arming st' later ≡ created a st' (sigaction sigbus (sigaction sigsegv later))
  unfolding arm
  arm-again st st' w w' later a e =
      let s : IsSettled (created a st' w') = subst IsSettled e (rearmed _ (registry-IsKept st w)) in
      arm-settled st' later a s.0 s.1
