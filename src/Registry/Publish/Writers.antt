-- ===== src/Registry/Publish/Writers.antt =====
-- The writers under the lock: in whatever order their stores come, they act like calls made one after
-- the other.
use coffin.Prelude.{
  Option, ℕ, ◌≡◌, refl, sym, ap, ◌∙◌, Bool, true, false, Bool-cases, none, some, List, [], ◌∷◌, inl,
  inr, ◌==◌,
}
use mathlib.Core.List.{map}
use coffin.Platform.{Platform}
use coffin.Registry.{
  is_freed, home, find_vacant, find_locked, Arena, Entry, insert, free, seal, quarantine_push,
  capture_ips,
}
use coffin.Registry.Run.{Call, put, release}
use coffin.Registry.Lock.{Section, Threads, Reach, apply_all}
use coffin.Registry.Lock.Serial.{run_sections, AllSections}
use coffin.Registry.Lock.Exclusion.{sections-serial}
use coffin.Registry.Publish.{
  insert_at, free_at, free_slot, in_arena, inserting, push_stores, freeing, insert_stores,
}
use coffin.Registry.Publish.Unseen.{insert-stores, seal-stores}

insert-full :
    (os : Platform) (a : Arena) (w : os.World) (e : Entry)
    → find_vacant a.slots a.mask a.cap (home a.mask e.user_ptr) ≡ none
    → (insert os e a w).1 ≡ a
unfolding insert
insert-full os a w e full = rw (insert, full) refl

module _ (os : Platform) where
  open os use {World}

  -- The section of a call, and the call as a whole.
  abbrev pub section_of : Call → Section (Arena × World)
  section_of (put e) = inserting os e
  section_of (release ptr total) = freeing os ptr total

  abbrev pub effect : Call → Arena × World → Arena × World
  effect (put e) (a, w) = ((insert os e a w).1, w)
  effect (release ptr total) (a, w) = let (r, b, w') = free os ptr total a w in (b, w')

  abbrev pub effects : List Call → Arena × World → Arena × World
  effects [] s = s
  effects (c ∷ cs) s = effects cs (effect c s)

  -- The section of a call that some thread wants.
  abbrev pub IsCall : (Call → Type 0) → Section (Arena × World) → Type 0
  IsCall Wanted g = (c : Call) × Wanted c × (g ≡ section_of c)

  abbrev pub AllWanted : (Call → Type 0) → List Call → Type 0
  AllWanted Wanted [] = Unit
  AllWanted Wanted (c ∷ cs) = Wanted c × AllWanted Wanted cs

  in_arena-all :
      (fs : List (Arena → Arena)) (a : Arena) (w : World)
      → apply_all (map (in_arena os) fs) (a, w) ≡ (apply_all fs a, w)
  in_arena-all [] a w = refl
  in_arena-all (f ∷ fs) a w = in_arena-all fs (f a) w

  insert_at-effect :
      (e : Entry) (a : Arena) (w : World) (o : Option ℕ)
      → find_vacant a.slots a.mask a.cap (home a.mask e.user_ptr) ≡ o
      → apply_all (insert_at os e w o) (a, w) ≡ effect (put e) (a, w)
  insert_at-effect e a w none full = ap (λ (b : Arena). (b, w)) (sym (insert-full os a w e full))
  insert_at-effect e a w (some i) at =
      in_arena-all (insert_stores e (capture_ips (os.trace w)) i) a w
      ∙ ap (λ (b : Arena). (b, w)) (insert-stores os a w i e at)

  push-effect :
      (idx : ℕ) (a : Arena) (w : World)
      → apply_all (push_stores os idx a) (a, w) ≡ quarantine_push os idx a w
  unfolding quarantine_push
  push-effect idx a w = elim (Bool-cases (a.q_len == a.q_cap)) [
    | inl e ↦ rw e refl
    | inr e ↦ rw e refl
  ]

  free_slot-effect :
      (ptr total : ℕ) (a : Arena) (w : World) (i : ℕ) (twice : Bool)
      → find_locked a ptr ≡ some i
      → is_freed (a.slots i).state ≡ twice
      → apply_all (free_slot os total a w i twice) (a, w) ≡ effect (release ptr total) (a, w)
  unfolding free seal
  free_slot-effect ptr total a w i true at e = rw (free, at, e) refl
  free_slot-effect ptr total a w i false at e =
      let w' = (os.mprotect_none (a.slots i).base total w).1 in
      rw (free, at, e)
        (ap (λ (b : Arena). apply_all (push_stores os i a) (b, w')) (seal-stores os a w i total)
          ∙ push-effect i (seal os i total a w).0 w')

  free_at-effect :
      (ptr total : ℕ) (a : Arena) (w : World) (o : Option ℕ)
      → find_locked a ptr ≡ o
      → apply_all (free_at os total a w o) (a, w) ≡ effect (release ptr total) (a, w)
  unfolding free
  free_at-effect ptr total a w none unknown = rw (free, unknown) refl
  free_at-effect ptr total a w (some i) at = free_slot-effect ptr total a w i _ at refl

  section-effect : (c : Call) (s : Arena × World) → apply_all (section_of c s) s ≡ effect c s
  section-effect (put e) (a, w) = insert_at-effect e a w _ refl
  section-effect (release ptr total) (a, w) = free_at-effect ptr total a w _ refl

  sections-effects :
      (Wanted : Call → Type 0) (ss : List (Section (Arena × World)))
      → AllSections (IsCall Wanted) ss
      → (s : Arena × World)
      → (cs : List Call) × AllWanted Wanted cs × (run_sections ss s ≡ effects cs s)
  sections-effects Wanted [] all s = ([], tt, refl)
  sections-effects Wanted (g ∷ ss) ((c, p, e), all) s =
      let (cs, ps, q) = sections-effects Wanted ss all (apply_all (g s) s) in
      (c ∷ cs, (p, ps), q ∙ ap (effects cs) (rw e (section-effect c s)))

  -- Any number of threads make calls of some kind, inserts and frees, on one arena, store by store
  -- under the spinlock. Whenever the lock is free, the arena and the world are as calls of that kind
  -- made one after the other leave them, in whatever order the threads took their steps.
  pub writers-serial :
      {Wanted : Call → Type 0} {s : Arena × World} {t : Threads (Arena × World)}
      → Reach (IsCall Wanted) s t
      → t.held ≡ false
      → (cs : List Call) × AllWanted Wanted cs × (t.shared ≡ effects cs s)
  writers-serial {Wanted} {s} r free =
      let (ss, all, e) = sections-serial r free in
      let (cs, ps, q) = sections-effects Wanted ss all s in (cs, ps, e ∙ q)
