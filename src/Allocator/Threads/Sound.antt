-- ===== src/Allocator/Threads/Sound.antt =====
-- Every move of every thread keeps the regions of all of them apart and guarded.
use coffin.Prelude.{
  ℕ, ◌^◌, ◌*◌, ◌≤◌, ◌<◌, ◌≡◌, refl, true, false, Option, none, some, inl, inr, update, Bool-cases,
  word,
}
use mathlib.Core.Path.{subst}
use coffin.Config.{Mode}
use coffin.Platform.{Platform}
use coffin.Platform.Laws.{within, IsSystem}
use coffin.Region.{Layout, Geometry}
use coffin.Region.Bounds.{Fences-of}
use coffin.Region.Map.{done}
use coffin.Registry.{Arena, new}
use coffin.Allocator.{Guard, register}
use coffin.Allocator.Process.{start-IsSound}
use coffin.Allocator.Threads.{
  outside, mapped, checked, Team, Moves, map, enrol, check, give, Reached, still, later,
}
use coffin.Allocator.Threads.Regions.{
  flies, prepared, IsLaidOut, IsSoundTeam, flies-is_ours, moved-IsSoundTeam,
}
use coffin.Allocator.Threads.Give.{settle-IsLeft}
use coffin.Allocator.Threads.Register.{register-IsEnrolled}
use coffin.Allocator.Threads.First.{check_padding-Keeps, kept-IsSoundTeam, map-IsSoundTeam}

module _ (os : Platform) (m : Mode) (page_exp : ℕ) (sys : IsSystem os (2 ^ page_exp)) (k : ℕ) where
  open sys use {access}

  enrol-IsSoundTeam :
      {t : Team os} (v : IsSoundTeam os sys m k t)
      → (i : ℕ) (guard : ℕ → Guard) (l : Layout) (g : Geometry) (o : Option (ℕ × ℕ)) (p : ℕ)
      → (a : Arena) (w : os.World) → t.phase i ≡ mapped l g o
      → register os m (2 ^ page_exp) l g o t.arena t.world ≡ done (p, a, w)
      → IsSoundTeam os sys m k
          (record { guard = guard; phase = update t.phase i outside; arena = a; world = w })
  unfolding register
  enrol-IsSoundTeam {t} v i guard l g none p a w at e =
      subst
        (λ (q : ℕ × Arena × os.World).
          IsSoundTeam os sys m k
            (record { guard = guard; phase = update t.phase i outside; arena = q.1; world = q.2 }))
        {x = (0, t.arena, t.world)} {y = (p, a, w)} (cc e)
        (kept-IsSoundTeam os m page_exp sys k v i guard outside t.world (λ x o. refl) tt
          (λ addr. refl))
  enrol-IsSoundTeam {t} v i guard l g (some (base, user)) p a w at e =
      let (f, behind, whole, inside) = subst (IsLaidOut os sys m k) at (v.laid i) in
      let r =
        register-IsEnrolled os sys v.fenced l m g f base whole inside
          (λ addr h.
            subst (λ q. flies q addr ≡ true → access addr t.world ≡ prepared os sys m k q addr) at
              (v.accessed i addr) h)
          (λ addr j h q. v.untracked i addr j (rw at h) q) p a w
          (subst
            (λ u.
              register os m (2 ^ page_exp) l g (some (base, u)) t.arena t.world ≡ done (p, a, w))
            behind e) in
      moved-IsSoundTeam os sys m k v i guard outside a w r.fenced tt (λ addr h. cc h)
        (λ j addr n h. (
          elim (Bool-cases (within base g.map_len addr)) [
            | inl hit ↦ absurd (n (v.apart i j addr (rw at hit) h))
            | inr miss ↦ r.kept addr (flies-is_ours os sys m k v j addr h) miss
          ],
          λ q held. elim (r.more addr q held) [
            | inl before ↦ v.untracked j addr q h before
            | inr hit ↦ n (v.apart i j addr (rw at hit) h)
          ],
        ))

  -- Every move of a thread keeps a sound team sound.
  Moves-IsSoundTeam :
      (i : ℕ) {t t' : Team os}
      → IsSoundTeam os sys m k t
      → Moves os m page_exp i t t'
      → IsSoundTeam os sys m k t'
  Moves-IsSoundTeam i v (map l g e at in_use request geo) =
      map-IsSoundTeam os m page_exp sys k v i _ l g (Fences-of l e page_exp m g request geo)
  Moves-IsSoundTeam i v (enrol l g o p a w at e) = enrol-IsSoundTeam v i _ l g o p a w at e
  Moves-IsSoundTeam i {t} v (check ptr l g w at n in_use geo e) =
      kept-IsSoundTeam os m page_exp sys k v i _ (checked ptr l g) w
        (check_padding-Keeps os m page_exp sys k ptr l g t.world w geo e) tt (λ addr. refl)
  Moves-IsSoundTeam i {t} v (give ptr l g a w at fits e) =
      let r = settle-IsLeft os sys v.fenced m l ptr g.map_len fits a w e in
      moved-IsSoundTeam os sys m k v i _ outside a w r.fenced tt (λ addr h. cc h)
        (λ j addr n h. (
          r.kept addr (flies-is_ours os sys m k v j addr h) (λ q held. v.untracked j addr q h held),
          λ q held. v.untracked j addr q h (r.fewer addr q held),
        ))

  Reached-IsSoundTeam :
      {t t' : Team os}
      → IsSoundTeam os sys m k t
      → Reached os m page_exp t t'
      → IsSoundTeam os sys m k t'
  Reached-IsSoundTeam v still = v
  Reached-IsSoundTeam v (later i r s) = Moves-IsSoundTeam i (Reached-IsSoundTeam v r) s

  -- No thread is in the allocator, and the arena is new.
  abbrev pub start_team : ℕ → os.World → Team os
  start_team q_cap w = record {
    guard = λ i. some false;
    phase = λ i. outside;
    arena = new (2 ^ k) q_cap;
    world = w;
  }

  -- On a system that obeys the laws, any number of threads start on a new arena of 2 ^ k slots, k at
  -- most 63, whose ring has a place and has a word of bytes. They allocate and free at once, with the
  -- steps of the calls in any order: requests in range are mapped and later registered, and a pointer
  -- is checked and later given back, a live one with its layout and with a region that `mprotect` can
  -- seal. Then at every moment the arena is valid, no two tracked regions share an address, the guard
  -- page of every live region and the whole of every region in quarantine are sealed and the rest of
  -- every live region is writable; the same holds of every region that some thread has mapped and not
  -- yet registered, and none of these shares an address with a tracked region or with one of another
  -- thread.
  pub team-IsSoundTeam :
      (q_cap : ℕ) (w : os.World)
      → k ≤ 63
      → 0 < q_cap
      → q_cap * 8 < word
      → (t : Team os) → Reached os m page_exp (start_team q_cap w) t
      → IsSoundTeam os sys m k t
  team-IsSoundTeam q_cap w hk pos small t r =
      let (down, fenced) = start-IsSound os m page_exp sys k q_cap w hk pos small in
      Reached-IsSoundTeam
        (record {
          fenced = fenced;
          laid = λ i. tt;
          accessed = λ i addr h. cc h;
          untracked = λ i addr j h. cc h;
          apart = λ i j addr h. cc h;
        })
        r
