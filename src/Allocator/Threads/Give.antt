-- ===== src/Allocator/Threads/Give.antt =====
-- What the end of `coffin_dealloc` leaves alone: the addresses that no tracked region has.
use coffin.Prelude.{ℕ, ◌<◌, ◌≡◌, refl, sym, ap, ◌∙◌, true, false, inl, inr, Bool-cases, arith}
use mathlib.Core.Path.{subst}
use native.Mathlib.Decide.{ℕ_discrete}
use coffin.Config.{Mode}
use coffin.Platform.{Platform}
use coffin.Platform.Laws.{is_ours, within, IsSystem}
use coffin.Region.{Layout}
use coffin.Region.Map.{done}
use coffin.Registry.{Arena, ready, is_freed, is_vacant, seal, free}
use coffin.Registry.Lookup.{Tracks}
use coffin.Registry.Views.{Tracks-cases}
use coffin.Registry.Quarantine.{IsSealed, oldest-tracked, push-full_world, push-room_world}
use coffin.Registry.Free.{ready_of, free-ready, free-freed, free-absent}
use coffin.Fault.Freed.{free-IsFreeing, seal-IsFreeing, free-cap}
use coffin.Fault.Scan.{Holds}
use coffin.Allocator.{settle}
use coffin.Allocator.Guarded.{IsGuarded, world-IsGuarded}
use coffin.Allocator.Guarded.Alloc.{IsFenced}
use coffin.Allocator.Guarded.Dealloc.{settle-true}
use coffin.Allocator.Guarded.Free.{covers-within, marked-IsSealed, marked-IsGuarded, free-IsFenced}

module _ (os : Platform) {page : ℕ} (sys : IsSystem os page) where
  open sys use {access}

  -- What a call leaves: fenced regions, the access of an address that no region had, and no region where
  -- none was.
  pub record IsLeft (k : ℕ) (a : Arena) (w : os.World) (a' : Arena) (w' : os.World) : Type 0 where
    pub fenced : IsFenced os sys k a' w'
    pub kept :
        (addr : ℕ)
        → is_ours (access addr w) ≡ true
        → ((j : ℕ) → Holds a.slots a.cap addr j → ⊥)
        → access addr w' ≡ access addr w
    pub fewer : (addr j : ℕ) → Holds a'.slots a'.cap addr j → Holds a.slots a.cap addr j

  -- An address that no tracked region has is not within one.
  untracked-within :
      {slots : _} {cap : ℕ} {w : os.World} (v : IsGuarded os sys slots cap w) (addr i : ℕ)
      → i < cap
      → is_vacant (slots i).state ≡ false
      → ((j : ℕ) → Holds slots cap addr j → ⊥)
      → within (slots i).base (slots i).total_len addr ≡ false
  untracked-within {slots} v addr i h u out =
      elim (Bool-cases (within (slots i).base (slots i).total_len addr)) [
        | inl e ↦ absurd (out i (h, u, covers-within page (slots i) addr (v.whole i h u) ∙ e))
        | inr e ↦ e
      ]

  module _ {k : ℕ} {a : Arena} {w : os.World} (v : IsFenced os sys k a w) (ptr i total : ℕ)
      (t : Tracks a.slots a.cap ptr i) (s : (a.slots i).state ≡ ready)
      (size : (a.slots i).total_len ≡ total)
      (ok : (os.mprotect_none (a.slots i).base total w).0 ≡ true) where
    marked-outside :
        (addr : ℕ)
        → ((j : ℕ) → Holds a.slots a.cap addr j → ⊥)
        → access addr (seal os i total a w).1 ≡ access addr w
    unfolding seal
    marked-outside addr out =
        let whole = v.guarded.whole i t.0 t.1 in
        subst (λ n. access addr (os.mprotect_none (a.slots i).base n w).1 ≡ access addr w) size
          (sys.mprotect_outside _ _ w whole.base_whole whole.len_whole addr
            (untracked-within v.guarded addr i t.0 t.1 out))

    -- The call that seals a live region.
    free-outside :
        (addr : ℕ)
        → ((j : ℕ) → Holds a.slots a.cap addr j → ⊥)
        → access addr (free os ptr total a w).2 ≡ access addr w
    unfolding seal
    free-outside addr out =
        rw (free-ready os v.valid ptr total w i t s) (elim (ℕ_discrete b.q_len b.q_cap) [
          | yes e ↦
              let (h, u) = oldest-tracked k b i sealing e in
              let whole = guarded.whole _ h u in
              rw (push-full_world os i after b e) (
                sys.munmap_outside _ _ after whole.base_whole whole.len_whole addr (
                  untracked-within guarded addr _ h u
                    (λ j q. out j ((seal-IsFreeing os v.valid ptr i total w t s).fewer addr j q)))
                ∙ marked-outside addr out)
          | no n ↦ rw (push-room_world os i after b n) (marked-outside addr out)
        ])
      where
        b : Arena
        b = (seal os i total a w).0

        after : os.World
        after = (seal os i total a w).1

        sealing : IsSealed k b i
        sealing = marked-IsSealed os sys v ptr i total t s size ok

        guarded : IsGuarded os sys b.slots b.cap after
        guarded = marked-IsGuarded os sys v ptr i total t s size ok

    free-IsLeft : IsLeft k a w (free os ptr total a w).1 (free os ptr total a w).2
    free-IsLeft = record {
      fenced = free-IsFenced os sys v ptr i total t s size ok;
      kept = λ addr o out. free-outside addr out;
      fewer = λ addr j h. (free-IsFreeing os v.valid ptr i total w t s).fewer addr j (
          subst (λ c. Holds (free os ptr total a w).1.slots c addr j)
            (free-cap os v.valid ptr i total w t s) h);
    }

  -- A change of the world that leaves the program's own addresses alone, and the arena as it is.
  world-IsLeft :
      {k : ℕ} {a : Arena} {w : os.World}
      → IsFenced os sys k a w
      → (w' : os.World)
      → ((addr : ℕ) → is_ours (access addr w) ≡ true → access addr w' ≡ access addr w)
      → IsLeft k a w a w'
  world-IsLeft v w' same = record {
    fenced = record { valid = v.valid; guarded = world-IsGuarded os sys v.guarded w' same };
    kept = λ addr o out. same addr o;
    fewer = λ addr j h. h;
  }

  done_same : {r r' : Arena × os.World} → done r ≡ done r' → r ≡ r'
  done_same e = cc e

  -- Whatever the pointer is: live, freed before, or none of the arena's.
  pub settle-IsLeft :
      {k : ℕ} {a : Arena} {w : os.World} (v : IsFenced os sys k a w)
      → (m : Mode) (l : Layout) (ptr total : ℕ)
      → ((i : ℕ)
          → Tracks a.slots a.cap ptr i
          → (a.slots i).state ≡ ready
          → ((a.slots i).total_len ≡ total)
            × ((os.mprotect_none (a.slots i).base total w).0 ≡ true))
      → (a' : Arena) (w' : os.World)
      → settle os m page ptr l (free os ptr total a w) ≡ done (a', w')
      → IsLeft k a w a' w'
  unfolding settle
  settle-IsLeft {k} {a} {w} v m l ptr total fits a' w' e = elim (Tracks-cases v.valid.indexed ptr) [
    | inl f ↦
        as_left (a, os.system_dealloc ptr l.size l.align w)
          (rw (free-absent os v.valid ptr total w f) refl)
          (world-IsLeft v _ (sys.system_dealloc_access ptr l.size l.align w))
    | inr (i, t) ↦ elim (Bool-cases (is_freed (a.slots i).state)) [
      | inl d ↦
          as_left (a, os.write_stderr "coffin: double free detected\n" w)
            (rw (free-freed os v.valid ptr total w i t (ground arith)) refl)
            (world-IsLeft v _ (λ addr o. sys.write_stderr_access _ w addr))
      | inr d ↦
          let s = ready_of _ t.1 d in
          let (size, ok) = fits i t s in
          as_left _
            (settle-true os sys ptr l m _ (ap (λ r. r.0) (free-ready os v.valid ptr total w i t s)))
            (free-IsLeft v ptr i total t s size ok)
    ]
  ]
    where
      as_left :
          (r : Arena × os.World)
          → settle os m page ptr l (free os ptr total a w) ≡ done r
          → IsLeft k a w r.0 r.1
          → IsLeft k a w a' w'
      as_left r e' left =
          subst (λ (q : Arena × os.World). IsLeft k a w q.0 q.1) (done_same (sym e' ∙ e)) left
