-- ===== src/Allocator/Guarded/Free.antt =====
-- `free` seals the region of its slot, and keeps every other region as it was.
use coffin.Prelude.{
  ℕ, ◌+◌, ◌<◌, ◌≡◌, ◌≢◌, refl, sym, ap, ◌∙◌, true, false, arith, Bool-cases, update, leb, ltb,
  wrapping_add, inl, inr, ◌&&◌,
}
use mathlib.Core.Path.{subst}
use native.Mathlib.Decide.{ℕ_discrete}
use coffin.Platform.{Platform}
use coffin.Platform.Laws.{within, IsSystem}
use coffin.Registry.{Region, Arena, is_vacant, ready, freed, seal, free}
use coffin.Registry.Lookup.{Tracks}
use coffin.Registry.Quarantine.{
  IsSealed, seal-IsSealed, oldest-tracked, entombed, push-full, push-room, push-full_world,
  push-room_world, push-IsValid,
}
use coffin.Registry.Free.{free-ready}
use coffin.Fault.{covers}
use coffin.Fault.Scan.{Holds}
use coffin.Allocator.Guarded.{IsWhole, IsGuarded, update-IsGuarded, Holds-is_ours}
use coffin.Allocator.Guarded.Alloc.{IsFenced}

-- A region inside the address space covers what is within it.
pub covers-within :
    (page : ℕ) (r : Region) (addr : ℕ)
    → IsWhole page r
    → covers r addr ≡ within r.base r.total_len addr
covers-within page r addr v = ap (λ t. leb r.base addr && ltb addr t) sum
  where
    sum : wrapping_add r.base r.total_len ≡ r.base + r.total_len
    sum = omega (arith, v.inside)

module _ (os : Platform) {page : ℕ} (sys : IsSystem os page) where
  open sys use {access}

  module _ {slots : ℕ → Region} {cap : ℕ} {w : os.World} (v : IsGuarded os sys slots cap w) (i : ℕ)
      (in_table : i < cap) (tracked : is_vacant (slots i).state ≡ false) where
    sound : IsWhole page (slots i)
    sound = v.whole i in_table tracked

    -- Another region has no address within this one.
    outside :
        (addr j : ℕ)
        → i ≢ j
        → Holds slots cap addr j
        → within (slots i).base (slots i).total_len addr ≡ false
    outside addr j n h = elim (Bool-cases (within (slots i).base (slots i).total_len addr)) [
      | inl e ↦ absurd (
          n (
            v.apart.apart addr i j (in_table, tracked, covers-within page (slots i) addr sound ∙ e)
              h))
      | inr e ↦ e
    ]

    -- The slot is marked, and its region sealed.
    pub seal-IsGuarded :
        (r : Region)
        → r.state ≡ freed
        → r.base ≡ (slots i).base
        → r.total_len ≡ (slots i).total_len
        → r.user_ptr ≡ (slots i).user_ptr
        → (os.mprotect_none (slots i).base (slots i).total_len w).0 ≡ true
        → IsGuarded os sys
            (update slots i r)
            cap
            (os.mprotect_none (slots i).base (slots i).total_len w).1
    seal-IsGuarded r s eb el eu ok =
        update-IsGuarded os sys v i r _
          (λ addr j n h.
            sys.mprotect_outside _ _ w sound.base_whole sound.len_whole addr (outside addr j n h))
          (λ u. record {
            base_whole = rw eb sound.base_whole;
            len_whole = rw el sound.len_whole;
            inside = rw (eb, el) sound.inside;
            user_inside = rw (eb, el, eu) sound.user_inside;
          })
          (λ addr j n h u c. n (v.apart.apart addr i j (in_table, tracked, same addr ∙ c) h))
          (λ addr u c. rw s (
            sys.mprotect_sealed _ _ w sound.base_whole sound.len_whole ok addr
              (sym (covers-within page (slots i) addr sound) ∙ same addr ∙ c)
              (Holds-is_ours os sys v addr i (in_table, tracked, same addr ∙ c))))
      where
        same : (addr : ℕ) → covers (slots i) addr ≡ covers r addr
        same addr = rw (eb, el) refl

    -- The slot is buried, and its region given back.
    pub bury-IsGuarded :
        IsGuarded os sys
          (update slots i (entombed (slots i)))
          cap
          (os.munmap (slots i).base (slots i).total_len w)
    bury-IsGuarded =
        update-IsGuarded os sys v i (entombed (slots i)) _
          (λ addr j n h.
            sys.munmap_outside _ _ w sound.base_whole sound.len_whole addr (outside addr j n h))
          (λ u. cc u) (λ addr j n h u c. cc u) (λ addr u c. cc u)

  module _ {k : ℕ} {a : Arena} {w : os.World} (v : IsFenced os sys k a w) (ptr i total : ℕ)
      (t : Tracks a.slots a.cap ptr i) (s : (a.slots i).state ≡ ready)
      (size : (a.slots i).total_len ≡ total)
      (ok : (os.mprotect_none (a.slots i).base total w).0 ≡ true) where
    abbrev pub marked : Arena × os.World
    marked = seal os i total a w

    pub marked-IsSealed : IsSealed k marked.0 i
    marked-IsSealed = seal-IsSealed os i w total v.valid t.0 s

    pub marked-IsGuarded : IsGuarded os sys marked.0.slots marked.0.cap marked.1
    unfolding seal
    marked-IsGuarded =
        subst
          (λ n.
            IsGuarded os sys (seal os i total a w).0.slots a.cap
              (os.mprotect_none (a.slots i).base n w).1)
          size
          (seal-IsGuarded v.guarded i t.0 t.1 _ refl refl refl refl
            (subst (λ n. (os.mprotect_none (a.slots i).base n w).0 ≡ true) (sym size) ok))

    pub free-IsFenced : IsFenced os sys k (free os ptr total a w).1 (free os ptr total a w).2
    free-IsFenced = rw (free-ready os v.valid ptr total w i t s) (record {
      valid = push-IsValid os i marked.1 marked-IsSealed;
      guarded = elim (ℕ_discrete marked.0.q_len marked.0.q_cap) [
        | yes e ↦
            rw (push-full os i marked.1 marked.0 e, push-full_world os i marked.1 marked.0 e)
              (bury-IsGuarded marked-IsGuarded (marked.0.ring marked.0.q_tail)
                (oldest-tracked k marked.0 i marked-IsSealed e).0
                (oldest-tracked k marked.0 i marked-IsSealed e).1)
        | no ne ↦
            rw (push-room os i marked.1 marked.0 ne, push-room_world os i marked.1 marked.0 ne)
              marked-IsGuarded
      ];
    })
