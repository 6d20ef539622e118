-- ===== src/Fault/Freed.antt =====
-- What a fault in a freed region is reported as.
use coffin.Prelude.{ℕ, ◌≡◌, ◌≢◌, refl, ◌∙◌, true, false, arith, update, update_ne, List}
use native.Mathlib.Decide.{ℕ_discrete}
use coffin.Platform.{Platform}
use coffin.Registry.{
  Region, Arena, is_vacant, ready, freed, capture_ips, seal, quarantine_push, free,
}
use coffin.Registry.Lookup.{Tracks}
use coffin.Registry.Invariant.{IsValid}
use coffin.Registry.Quarantine.{push-full, push-room, seal-IsSealed, oldest-ne}
use coffin.Registry.Run.{free-sizes}
use coffin.Registry.Free.{free-ready}
use coffin.Fault.{use_after_free, info_of, kind_of, covers, classify}
use coffin.Fault.Scan.{Holds, IsApart, classify-Holds}

-- The table after a slot is freed: the slot is marked, and other slots are as before, or vacant.
pub record IsFreeing (ips : List ℕ) (old slots : ℕ → Region) (cap i : ℕ) : Type 0 where
  pub marked : (slots i).state ≡ freed
  same :
      (page addr : ℕ)
      → info_of page slots addr i ≡ record (info_of page old addr i) { kind = use_after_free }
  pub kept : (addr : ℕ) → covers (slots i) addr ≡ covers (old i) addr
  -- The stack of the allocation is kept, and that of the free is stored.
  pub allocated_at : (slots i).alloc_ips ≡ (old i).alloc_ips
  pub freed_at : (slots i).free_ips ≡ ips
  pub fewer : (addr j : ℕ) → Holds slots cap addr j → Holds old cap addr j

module _ (slots : ℕ → Region) (cap i : ℕ) (r : Region)
    (old : is_vacant (slots i).state ≡ false) where
  mark-IsFreeing :
      (ips : List ℕ)
      → r ≡ record (slots i) { free_ips = ips; state = freed }
      → IsFreeing ips slots (update slots i r) cap i
  unfolding info_of kind_of
  mark-IsFreeing ips e = record {
    marked = ground arith;
    same = λ page addr. ground arith;
    kept = λ addr. ground arith;
    allocated_at = ground arith;
    freed_at = ground arith;
    fewer = λ addr j h. ground arith;
  }

module _ (slots : ℕ → Region) (cap i x : ℕ) (ne : x ≢ i) (r : Region)
    (gone : is_vacant r.state ≡ true) where
  bury-IsFreeing :
      (ips : List ℕ) (old : ℕ → Region)
      → IsFreeing ips old slots cap i
      → IsFreeing ips old (update slots x r) cap i
  unfolding info_of kind_of
  bury-IsFreeing ips old f = record {
    marked = rw (update_ne slots r ne) f.marked;
    same = λ page addr. ground (arith, f.same page addr);
    kept = λ addr. rw (update_ne slots r ne) (f.kept addr);
    allocated_at = rw (update_ne slots r ne) f.allocated_at;
    freed_at = rw (update_ne slots r ne) f.freed_at;
    fewer = λ addr j h. f.fewer addr j (ground arith);
  }

module _ (os : Platform) {k : ℕ} {a : Arena} (v : IsValid k a) (ptr i total : ℕ) (w : os.World)
    (t : Tracks a.slots a.cap ptr i) (s : (a.slots i).state ≡ ready) where
  abbrev sealed : Arena
  sealed = (seal os i total a w).0

  pub seal-IsFreeing : IsFreeing (capture_ips (os.trace w)) a.slots sealed.slots a.cap i
  unfolding seal
  seal-IsFreeing = mark-IsFreeing a.slots a.cap i _ t.1 (capture_ips (os.trace w)) refl

  push-IsFreeing :
      (w' : os.World)
      → IsFreeing
          (capture_ips (os.trace w))
          a.slots
          (quarantine_push os i sealed w').0.slots
          a.cap
          i
  push-IsFreeing w' = elim (ℕ_discrete sealed.q_len sealed.q_cap) [
    | yes e ↦ rw (push-full os i w' sealed e) (
        bury-IsFreeing sealed.slots a.cap i (sealed.ring sealed.q_tail)
          (oldest-ne k sealed i (seal-IsSealed os i w total v t.0 s) e) _ refl
          (capture_ips (os.trace w)) a.slots seal-IsFreeing)
    | no ne ↦ rw (push-room os i w' sealed ne) seal-IsFreeing
  ]

  pub free-IsFreeing :
      IsFreeing (capture_ips (os.trace w)) a.slots (free os ptr total a w).1.slots a.cap i
  free-IsFreeing = rw (free-ready os v ptr total w i t s) (push-IsFreeing _)

  pub free-cap : (free os ptr total a w).1.cap ≡ a.cap
  free-cap = (free-sizes os a w ptr total).0

  -- On a valid arena whose regions are apart, `free` of a live region leaves an arena for which every
  -- address of the region is a use after free of that region.
  pub free-classify :
      (page addr : ℕ)
      → IsApart a.slots a.cap
      → covers (a.slots i) addr ≡ true
      → classify page (free os ptr total a w).1 addr
        ≡ record (info_of page a.slots addr i) { kind = use_after_free }
  free-classify page addr p c =
      classify-Holds page _ addr apart i
        (rw free-cap t.0, rw after.marked refl, after.kept addr ∙ c)
      ∙ after.same page addr
    where
      after : IsFreeing (capture_ips (os.trace w)) a.slots (free os ptr total a w).1.slots a.cap i
      after = free-IsFreeing

      apart : IsApart (free os ptr total a w).1.slots (free os ptr total a w).1.cap
      apart = rw free-cap (record {
        apart = λ addr j j' h h'. p.apart addr j j' (after.fewer addr j h) (after.fewer addr j' h');
      })
