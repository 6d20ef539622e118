-- ===== src/Registry/Free.antt =====
-- `free` on each of its branches, and the invariant after it.
use coffin.Prelude.{ℕ, ◌≡◌, true, false, none, some, inl, inr, arith, Bool-cases}
use coffin.Platform.{Platform}
use coffin.Registry.{
  SlotState, ready, freed, is_freed, is_vacant, Arena, find_locked, quarantine_push, seal, free,
}
use coffin.Registry.Lookup.{IsFresh, Tracks, find_from_iff, find_from-none_iff}
use coffin.Registry.Invariant.{IsValid}
use coffin.Registry.Quarantine.{seal-IsSealed, push-IsValid}
use coffin.Registry.Views.{Tracks-cases}

pub ready_of : (s : SlotState) → is_vacant s ≡ false → is_freed s ≡ false → s ≡ ready
ready_of s v f = ground arith

module _ (os : Platform) {k : ℕ} {a : Arena} (v : IsValid k a) (ptr total : ℕ) (w : os.World) where
  -- A pointer that is not tracked: nothing happens, and the caller is told.
  pub free-absent : IsFresh a.slots a.cap ptr → free os ptr total a w ≡ (none, a, w)
  unfolding free find_locked
  free-absent f = rw ((find_from-none_iff v.indexed ptr).1 f, free, find_locked)

  -- A double free: nothing happens, and the caller is told.
  pub free-freed :
      (i : ℕ)
      → Tracks a.slots a.cap ptr i
      → (a.slots i).state ≡ freed
      → free os ptr total a w ≡ (some false, a, w)
  unfolding free find_locked
  free-freed i t s = rw ((find_from_iff v.indexed ptr i).1 t, free, find_locked, s)

  -- A live allocation: its slot is sealed and goes into quarantine.
  pub free-ready :
      (i : ℕ)
      → Tracks a.slots a.cap ptr i
      → (a.slots i).state ≡ ready
      → let (b, w') = seal os i total a w in
        let (c, w'') = quarantine_push os i b w' in free os ptr total a w ≡ (some true, c, w'')
  unfolding free find_locked
  free-ready i t s = rw ((find_from_iff v.indexed ptr i).1 t, free, find_locked, s)

  -- `free` of any pointer keeps a valid arena valid.
  pub free-IsValid : IsValid k (free os ptr total a w).1
  free-IsValid = elim (Tracks-cases v.indexed ptr) [
    | inl f ↦ rw (free-absent f) v
    | inr (i, t) ↦ elim (Bool-cases (is_freed (a.slots i).state)) [
      | inl s ↦ rw (free-freed i t (ground arith)) v
      | inr s ↦
          let r = ready_of _ t.1 s in
          rw (free-ready i t r) (push-IsValid os i _ (seal-IsSealed os i w total v t.0 r))
    ]
  ]
