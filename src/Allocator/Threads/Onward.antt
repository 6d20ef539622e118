-- ===== src/Allocator/Threads/Onward.antt =====
-- No thread is stuck in the allocator.
use coffin.Prelude.{
  not, update, update_self, update_ne, ℕ, ◌*◌, ◌^◌, ◌≤◌, ◌<◌, ◌≡◌, ◌≢◌, refl, Bool, true, false,
  Option, none, some, word, if◌then◌else◌,
}
use coffin.Config.{Mode}
use coffin.Platform.{Platform}
use coffin.Platform.Laws.{IsSystem}
use coffin.Region.{Layout, Geometry, geometry_for}
use coffin.Region.Bounds.{IsRequest, geometry_for-Fences, Fences-of}
use coffin.Region.Map.{done}
use coffin.Registry.{Arena, ready, insert, free}
use coffin.Registry.Lookup.{Tracks}
use native.Mathlib.Decide.{ℕ_discrete}
use coffin.Allocator.{Guard, enter, leave, entry_of, register, settle}
use coffin.Allocator.Guarded.Dealloc.{IsLaid, check_padding-ready}
use coffin.Allocator.Threads.{
  Phase, outside, mapped, checked, Team, Moves, map, enrol, check, give, Reached, still, later,
}
use coffin.Allocator.Threads.Regions.{IsSoundTeam}
use coffin.Allocator.Threads.Sound.{start_team, team-IsSoundTeam}

module _ (os : Platform) (m : Mode) (page : ℕ) where
  either_done :
      (b : Bool) (r r' : ℕ × Arena × os.World)
      → (q : ℕ × Arena × os.World) × ((if b then done r else done r') ≡ done q)
  either_done true r r' = (r, refl)
  either_done false r r' = (r', refl)

  register-done :
      (l : Layout) (g : Geometry) (o : Option (ℕ × ℕ)) (a : Arena) (w : os.World)
      → (r : ℕ × Arena × os.World) × (register os m page l g o a w ≡ done r)
  unfolding register
  register-done l g none a w = (_, refl)
  register-done l g (some (base, user)) a w =
      either_done (insert os (entry_of base user l g) a w).0 _ _

  settle-done :
      (ptr : ℕ) (l : Layout) (r : Option Bool × Arena × os.World)
      → (s : Arena × os.World) × (settle os m page ptr l r ≡ done s)
  unfolding settle
  settle-done ptr l (some true, a, w) = (_, refl)
  settle-done ptr l (some false, a, w) = (_, refl)
  settle-done ptr l (none, a, w) = (_, refl)

-- A thread is inside a call of the allocator.
abbrev pub is_inside : Phase → Bool
is_inside outside = false
is_inside _ = true

module _ (os : Platform) (m : Mode) (page_exp : ℕ) (sys : IsSystem os (2 ^ page_exp)) (k : ℕ) where
  -- The guard of every thread is up exactly if the thread is inside a call.
  abbrev HasGuards : Team os → Type 0
  HasGuards t = (i : ℕ) → t.guard i ≡ some (is_inside (t.phase i))

  free_to_enter :
      (t : Team os) (i : ℕ) → HasGuards t → t.phase i ≡ outside → (enter (t.guard i)).0 ≡ true
  unfolding enter
  free_to_enter t i v at = rw (v i) (rw at refl)

  -- One thread moves on, with its guard.
  turn-HasGuards :
      (i : ℕ) (t : Team os) (p : Phase) (guard : Guard)
      → HasGuards t
      → guard ≡ some (is_inside p)
      → (j : ℕ) → update t.guard i guard j ≡ some (is_inside (update t.phase i p j))
  turn-HasGuards i t p guard v e j = elim (ℕ_discrete i j) [
    | yes q ↦ rw (update_self t.phase p q, update_self t.guard guard q) e
    | no n ↦ rw (update_ne t.phase p n, update_ne t.guard guard n) (v j)
  ]

  Moves-HasGuards :
      (i : ℕ) {t t' : Team os} → HasGuards t → Moves os m page_exp i t t' → HasGuards t'
  unfolding enter leave
  Moves-HasGuards i {t} v (map l g e at in_use request geo) =
      turn-HasGuards i t (mapped l g _) (enter (t.guard i)).1 v (rw (v i) (rw at refl))
  Moves-HasGuards i {t} v (enrol l g o p a w at ran) =
      turn-HasGuards i t outside (leave (t.guard i)) v (rw (v i) refl)
  Moves-HasGuards i {t} v (check ptr l g w at n in_use geo e) =
      turn-HasGuards i t (checked ptr l g) (enter (t.guard i)).1 v (rw (v i) (rw at refl))
  Moves-HasGuards i {t} v (give ptr l g a w at fits e) =
      turn-HasGuards i t outside (leave (t.guard i)) v (rw (v i) refl)

  Reached-HasGuards : {t t' : Team os} → HasGuards t → Reached os m page_exp t t' → HasGuards t'
  Reached-HasGuards v still = v
  Reached-HasGuards v (later i r s) = Moves-HasGuards i (Reached-HasGuards v r) s

  -- What a thread may be about to do: begin a call that allocates, or one that frees a live pointer, or
  -- end the call that it has begun.
  pub data Wants (i : ℕ) (t : Team os) : Type 0 where
    to_allocate : (l : Layout) (e : ℕ) → t.phase i ≡ outside → IsRequest l e page_exp → Wants i t
    to_register :
        (l : Layout) (g : Geometry) (o : Option (ℕ × ℕ)) → t.phase i ≡ mapped l g o → Wants i t
    to_release :
        (ptr : ℕ) (l : Layout) (e : ℕ) (g : Geometry) (j : ℕ)
        → t.phase i ≡ outside
        → ptr ≢ 0
        → IsRequest l e page_exp
        → geometry_for l m (2 ^ page_exp) ≡ some g
        → Tracks t.arena.slots t.arena.cap ptr j
        → (t.arena.slots j).state ≡ ready
        → IsLaid (t.arena.slots j) g
        → Wants i t
    to_settle :
        (ptr : ℕ) (l : Layout) (g : Geometry)
        → t.phase i ≡ checked ptr l g
        → ((j : ℕ)
            → Tracks t.arena.slots t.arena.cap ptr j
            → (t.arena.slots j).state ≡ ready
            → ((t.arena.slots j).total_len ≡ g.map_len)
              × ((os.mprotect_none (t.arena.slots j).base g.map_len t.world).0 ≡ true))
        → Wants i t

  -- The next move: it takes the thread into a call or out of it, with the guard up inside only.
  pub record IsOnward (i : ℕ) (t t' : Team os) : Type 0 where
    pub move : Moves os m page_exp i t t'
    pub turned : is_inside (t'.phase i) ≡ not (is_inside (t.phase i))
    pub guarded : t'.guard i ≡ some (is_inside (t'.phase i))

  onward :
      {i : ℕ} {t t' : Team os} (p : Phase)
      → t'.phase i ≡ p
      → is_inside p ≡ not (is_inside (t.phase i))
      → HasGuards t
      → Moves os m page_exp i t t'
      → IsOnward i t t'
  onward {i} {t} {t'} p at turned v move = record {
    move = move;
    turned = rw at turned;
    guarded = Moves-HasGuards i v move i;
  }

  Moves-of :
      (i : ℕ) (t : Team os)
      → IsSoundTeam os sys m k t
      → HasGuards t
      → Wants i t
      → (t' : Team os) × IsOnward i t t'
  Moves-of i t v guards (to_allocate l e at request) =
      let (g, geo, f) = geometry_for-Fences l e page_exp m request in
      (
        _,
        onward _ (update_self t.phase _ {i = i} refl) (rw at refl) guards
            (map l g e at (free_to_enter t i guards at) request geo),
      )
  Moves-of i t v guards (to_register l g o at) =
      let (r, ran) = register-done os m (2 ^ page_exp) l g o t.arena t.world in
      (
        _,
        onward outside (update_self t.phase outside {i = i} refl) (rw at refl) guards
            (enrol l g o r.0 r.1 r.2 at ran),
      )
  Moves-of i t v guards (to_release ptr l e g j at n request geo tracked live laid) =
      let f = Fences-of l e page_exp m g request geo in
      let (w, ran) = check_padding-ready os sys v.fenced l m g f geo ptr j tracked laid live in
      (
        _,
        onward (checked ptr l g) (update_self t.phase (checked ptr l g) {i = i} refl) (rw at refl)
            guards (check ptr l g w at n (free_to_enter t i guards at) geo ran),
      )
  Moves-of i t v guards (to_settle ptr l g at fits) =
      let (s, ran) =
        settle-done os m (2 ^ page_exp) ptr l (free os ptr g.map_len t.arena t.world) in
      (
        _,
        onward outside (update_self t.phase outside {i = i} refl) (rw at refl) guards
            (give ptr l g s.0 s.1 at fits ran),
      )

  -- Whatever the threads have done since the start on a new arena of 2 ^ k slots, k at most 63, whose
  -- ring has a place and has a word of bytes, on a system that obeys the laws: a thread that has begun
  -- a call of `alloc` or `dealloc` ends it with its next move, one that is outside can begin to
  -- allocate with a request in range, and one that has a live pointer with its layout can begin to free
  -- it, since its padding can be read. The reentrancy guard never stands in the way, since after the
  -- move it is up exactly if the thread is inside a call. Where a call ends with a live pointer, that
  -- has its layout and a region that `mprotect` seals then.
  pub team-Moves :
      (q_cap : ℕ) (w : os.World)
      → k ≤ 63
      → 0 < q_cap
      → q_cap * 8 < word
      → (t : Team os) → Reached os m page_exp (start_team os m page_exp sys k q_cap w) t
      → (i : ℕ) → Wants i t
      → (t' : Team os) × IsOnward i t t'
  team-Moves q_cap w hk pos small t r i wants =
      Moves-of i t (team-IsSoundTeam os m page_exp sys k q_cap w hk pos small t r)
        (Reached-HasGuards (λ j. refl) r) wants
