-- ===== src/Allocator/Threads/Register.antt =====
-- What the end of `coffin_alloc` does with a region that its thread mapped some steps ago.
use coffin.Prelude.{
  ℕ, ◌+◌, ◌%◌, ◌<◌, ◌≡◌, refl, sym, ap, ◌∙◌, Bool, true, false, some, ◌⊎◌, inl, inr, update,
  Bool-cases, arith, ◌&&◌, leb, ltb, wrapping_add, word, if◌then◌else◌,
}
use mathlib.Core.Path.{subst}
use native.Mathlib.Decide.{ℕ_discrete, dec_lt}
use coffin.Config.{Mode}
use coffin.Platform.{Platform}
use coffin.Platform.Laws.{is_ours, within, sealed, writable, IsSystem}
use coffin.Region.{Layout, Geometry}
use coffin.Region.Bounds.{Fences}
use coffin.Region.Map.{Run, done}
use coffin.Registry.{Region, Arena, Entry, publish, capture_ips, insert}
use coffin.Registry.Lookup.{IsFresh}
use coffin.Registry.Invariant.{IsValid, insert-IsValid}
use coffin.Registry.Room.{insert-full, insert-stores}
use coffin.Fault.{covers, in_guard}
use coffin.Fault.Apart.{Holds-stored, Holds-other}
use coffin.Fault.Scan.{Holds}
use coffin.Allocator.{entry_of, warn_full_once, register}
use coffin.Allocator.Guarded.{IsGuarded, Holds-is_ours, update-IsGuarded}
use coffin.Allocator.Guarded.Alloc.{IsFenced}

module _ (os : Platform) {page : ℕ} (sys : IsSystem os page) {k : ℕ} {a : Arena} {w : os.World}
    (v : IsFenced os sys k a w) (l : Layout) (m : Mode) (g : Geometry) (f : Fences l page m g)
    (base : ℕ) (whole : base % page ≡ 0) (inside : base + g.map_len < word)
    (mine : (addr : ℕ)
      → within base g.map_len addr ≡ true
      → sys.access addr w ≡ (if within (base + g.guard_off) page addr then sealed else writable))
    (untracked : (addr j : ℕ)
      → within base g.map_len addr ≡ true
      → Holds a.slots a.cap addr j
      → ⊥) where
  open sys use {access}

  -- What the step leaves: fenced regions, the access of the program's other addresses, and no region but
  -- the new one where none was.
  pub record IsEnrolled (a' : Arena) (w' : os.World) : Type 0 where
    pub fenced : IsFenced os sys k a' w'
    pub kept :
        (addr : ℕ)
        → is_ours (access addr w) ≡ true
        → within base g.map_len addr ≡ false
        → access addr w' ≡ access addr w
    pub more :
        (addr j : ℕ)
        → Holds a'.slots a'.cap addr j
        → Holds a.slots a.cap addr j ⊎ (within base g.map_len addr ≡ true)

  abbrev entry : Entry
  entry = entry_of base (base + g.user_off) l g

  abbrev new_slot : ℕ → Region
  new_slot i = publish entry (capture_ips (os.trace w)) (a.slots i)

  abbrev stored : ℕ → Arena
  stored i = record a { slots = update a.slots i (new_slot i); live = wrapping_add a.live 1 }

  covers-within : (i addr : ℕ) → covers (new_slot i) addr ≡ within base g.map_len addr
  covers-within i addr = ap (λ t. leb base addr && ltb addr t) sum
    where
      sum : wrapping_add base g.map_len ≡ base + g.map_len
      sum = omega arith

  in_guard-within :
      (i addr : ℕ) → in_guard page (new_slot i) addr ≡ within (base + g.guard_off) page addr
  in_guard-within i addr =
      ap (λ s. leb s addr && ltb addr (wrapping_add s page)) start
      ∙ ap (λ t. leb (base + g.guard_off) addr && ltb addr t) sum
    where
      start : wrapping_add base g.guard_off ≡ base + g.guard_off
      start = omega (arith, inside, f.guard_inside)

      sum : wrapping_add (base + g.guard_off) page ≡ base + g.guard_off + page
      sum = omega (arith, inside, f.guard_inside)

  user_within : within base g.map_len (base + g.user_off) ≡ true
  user_within = ground (arith, f.buffer_inside)

  fresh : IsFresh a.slots a.cap entry.user_ptr
  fresh i h u e =
      untracked (base + g.user_off) i user_within
        (h, u, rw (← e) (v.guarded.whole i h u).user_inside)

  stored-IsEnrolled : (i : ℕ) → insert os entry a w ≡ (true, stored i) → IsEnrolled (stored i) w
  stored-IsEnrolled i e = record {
    fenced = record {
      valid =
          subst (λ (r : Bool × Arena). IsValid k r.1) e (insert-IsValid v.valid os entry w fresh);
      guarded =
          update-IsGuarded os sys v.guarded i (new_slot i) w (λ addr j n h. refl)
            (λ u. record {
              base_whole = whole;
              len_whole = f.map_whole;
              inside = inside;
              user_inside = covers-within i (base + g.user_off) ∙ user_within;
            })
            (λ addr j n h u c. untracked addr j (sym (covers-within i addr) ∙ c) h)
            (λ addr u c.
              mine addr (sym (covers-within i addr) ∙ c) ∙ rw (in_guard-within i addr) refl);
    };
    kept = λ addr o out. refl;
    more = λ addr j h. elim (ℕ_discrete i j) [
      | yes e ↦
          inr
            (sym (covers-within i addr) ∙ (Holds-stored a.slots a.cap i (new_slot i) addr j e h).1)
      | no n ↦ inl (Holds-other a.slots a.cap i (new_slot i) addr j n h)
    ];
  }

  -- Without room the region is given back, the table is reported full, and the system allocator serves.
  abbrev returned : Arena × os.World
  returned = warn_full_once os m page a (os.munmap base g.map_len w)

  abbrev after : os.World
  after = (os.system_alloc l.size l.align returned.1).1

  returned-access :
      (addr : ℕ) → within base g.map_len addr ≡ false → access addr returned.1 ≡ access addr w
  unfolding warn_full_once
  returned-access addr out =
      let gone = sys.munmap_outside base g.map_len w whole f.map_whole addr out in
      elim (Bool-cases a.full_warned) [
        | inl e ↦ rw e gone
        | inr e ↦ rw e (sys.write_stderr_access _ _ addr ∙ gone)
      ]

  returned-kept :
      (addr : ℕ)
      → is_ours (access addr w) ≡ true
      → within base g.map_len addr ≡ false
      → access addr after ≡ access addr w
  returned-kept addr o out =
      let e = returned-access addr out in
      sys.system_alloc_access l.size l.align returned.1 addr (rw e o) ∙ e

  -- The flag is no part of what the invariant says.
  warned-IsValid :
      (warned : Bool) (u x : os.World)
      → (let r : Arena × os.World =
            if warned then (a, u) else (record a { full_warned = true }, x) in
          IsValid k r.0)
  warned-IsValid true u x = v.valid
  warned-IsValid false u x = record {
    indexed = v.valid.indexed;
    queue = v.valid.queue;
    live_count = v.valid.live_count;
    freed_count = v.valid.freed_count;
    ring = v.valid.ring;
  }

  returned-IsValid : IsValid k returned.0
  unfolding warn_full_once
  returned-IsValid = warned-IsValid a.full_warned _ _

  returned-slots : (returned.0.slots ≡ a.slots) × (returned.0.cap ≡ a.cap)
  unfolding warn_full_once
  returned-slots = elim (Bool-cases a.full_warned) [
    | inl e ↦ rw e (refl, refl)
    | inr e ↦ rw e (refl, refl)
  ]

  outside_new : (addr j : ℕ) → Holds a.slots a.cap addr j → within base g.map_len addr ≡ false
  outside_new addr j h = elim (Bool-cases (within base g.map_len addr)) [
    | inl e ↦ absurd (untracked addr j e h)
    | inr e ↦ e
  ]

  returned-IsGuarded : IsGuarded os sys a.slots a.cap after
  returned-IsGuarded = record {
    apart = v.guarded.apart;
    whole = v.guarded.whole;
    fenced = λ addr i h.
        returned-kept addr (Holds-is_ours os sys v.guarded addr i h) (outside_new addr i h)
        ∙ v.guarded.fenced addr i h;
  }

  returned-IsEnrolled : IsEnrolled returned.0 after
  returned-IsEnrolled =
      let (slots, cap) = returned-slots in
      record {
        fenced = record { valid = returned-IsValid; guarded = rw (slots, cap) returned-IsGuarded };
        kept = returned-kept;
        more = λ addr j h. inl (
            subst (λ c. Holds a.slots c addr j) cap
              (subst (λ s. Holds s returned.0.cap addr j) slots h));
      }

  IsEnrolled-as :
      {p p' : ℕ} {a' a'' : Arena} {w' w'' : os.World}
      → ◌≡◌ {A = Run (ℕ × Arena × os.World)} (done (p, a', w')) (done (p', a'', w''))
      → IsEnrolled a' w'
      → IsEnrolled a'' w''
  IsEnrolled-as e r = subst (λ (q : ℕ × Arena × os.World). IsEnrolled q.1 q.2) (same e) r
    where
      same : {q q' : ℕ × Arena × os.World} → done q ≡ done q' → q ≡ q'
      same e = cc e

  registered :
      (i : ℕ)
      → insert os entry a w ≡ (true, stored i)
      → register os m page l g (some (base, base + g.user_off)) a w
        ≡ done (base + g.user_off, stored i, w)
  unfolding register
  registered i at = rw (at, register) refl

  refused :
      insert os entry a w ≡ (false, a)
      → register os m page l g (some (base, base + g.user_off)) a w
        ≡ done ((os.system_alloc l.size l.align returned.1).0, returned.0, after)
  unfolding register
  refused at = rw (at, register) refl

  -- With room or without it, `register` of the region comes to what the table and the system make of it.
  pub register-IsEnrolled :
      (p : ℕ) (a' : Arena) (w' : os.World)
      → register os m page l g (some (base, base + g.user_off)) a w ≡ done (p, a', w')
      → IsEnrolled a' w'
  register-IsEnrolled p a' w' e = elim (dec_lt (a.live + a.q_len) a.cap) [
    | yes room ↦
        let (i, h, old, at) = insert-stores v.valid os entry w room in
        IsEnrolled-as (sym (registered i at) ∙ e) (stored-IsEnrolled i at)
    | no full ↦
        let at = insert-full v.valid os entry w (omega arith) in
        IsEnrolled-as (sym (refused at) ∙ e) returned-IsEnrolled
  ]
