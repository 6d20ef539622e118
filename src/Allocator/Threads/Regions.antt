-- ===== src/Allocator/Threads/Regions.antt =====
-- The regions that threads have mapped and not yet registered, beside the tracked ones.
use coffin.Prelude.{
  ℕ, ◌+◌, ◌%◌, ◌<◌, ◌≡◌, ◌≢◌, sym, ◌∙◌, Bool, true, false, none, some, update, update_self,
  update_ne, word, if◌then◌else◌, arith,
}
use mathlib.Core.Path.{subst}
use native.Mathlib.Decide.{ℕ_discrete}
use coffin.Config.{Mode}
use coffin.Platform.{Platform}
use coffin.Platform.Laws.{Access, writable, sealed, is_ours, within, IsSystem}
use coffin.Region.Bounds.{Fences}
use coffin.Registry.{Arena}
use coffin.Fault.Scan.{Holds}
use coffin.Allocator.{Guard}
use coffin.Allocator.Guarded.Alloc.{IsFenced}
use coffin.Allocator.Threads.{Phase, mapped, Team}

-- The addresses of a region in flight.
abbrev pub flies : Phase → ℕ → Bool
flies (mapped l g (some (base, user))) addr = within base g.map_len addr
flies _ addr = false

module _ (os : Platform) {page : ℕ} (sys : IsSystem os page) (m : Mode) (k : ℕ) where
  open sys use {access}

  -- The guard page of such a region is sealed, and the rest is writable.
  abbrev pub prepared : Phase → ℕ → Access
  prepared (mapped l g (some (base, user))) addr =
      if within (base + g.guard_off) page addr then sealed else writable
  prepared _ addr = writable

  pub prepared-is_ours : (p : Phase) (addr : ℕ) → is_ours (prepared p addr) ≡ true
  prepared-is_ours p addr = ground arith

  abbrev pub IsLaidOut : Phase → Type 0
  IsLaidOut (mapped l g none) = Fences l page m g
  IsLaidOut (mapped l g (some (base, user))) =
      Fences l page m g × (user ≡ base + g.user_off) × (base % page ≡ 0) × (base + g.map_len < word)
  IsLaidOut _ = Unit

  -- The tracked regions are guarded, those in flight are prepared, and no two of them all share an
  -- address.
  pub record IsSoundTeam (t : Team os) : Type 0 where
    pub fenced : IsFenced os sys k t.arena t.world
    pub laid : (i : ℕ) → IsLaidOut (t.phase i)
    pub accessed :
        (i addr : ℕ)
        → flies (t.phase i) addr ≡ true
        → access addr t.world ≡ prepared (t.phase i) addr
    pub untracked :
        (i addr j : ℕ) → flies (t.phase i) addr ≡ true → Holds t.arena.slots t.arena.cap addr j → ⊥
    pub apart :
        (i j addr : ℕ) → flies (t.phase i) addr ≡ true → flies (t.phase j) addr ≡ true → i ≡ j

  module _ {t : Team os} (v : IsSoundTeam t) where
    pub flies-is_ours :
        (i addr : ℕ) → flies (t.phase i) addr ≡ true → is_ours (access addr t.world) ≡ true
    flies-is_ours i addr h = rw (v.accessed i addr h) (prepared-is_ours (t.phase i) addr)

    -- One thread moves on: what its new phase needs, and what the regions in flight of the others do.
    module _ (i : ℕ) (guard : ℕ → Guard) (p : Phase) (b : Arena) (w : os.World) where
      abbrev pub moved : Team os
      moved = record { guard = guard; phase = update t.phase i p; arena = b; world = w }

      pub moved-IsSoundTeam :
          IsFenced os sys k b w
          → IsLaidOut p
          → ((addr : ℕ)
              → flies p addr ≡ true
              → (access addr w ≡ prepared p addr)
                × ((n : ℕ) → Holds b.slots b.cap addr n → ⊥)
                × ((j : ℕ) → i ≢ j → flies (t.phase j) addr ≡ true → ⊥))
          → ((j addr : ℕ)
              → i ≢ j
              → flies (t.phase j) addr ≡ true
              → (access addr w ≡ access addr t.world) × ((n : ℕ) → Holds b.slots b.cap addr n → ⊥))
          → IsSoundTeam moved
      moved-IsSoundTeam fenced laid mine others = record {
        fenced = fenced;
        laid = λ j. elim (ℕ_discrete i j) [
          | yes e ↦ rw (update_self t.phase p e) laid
          | no n ↦ rw (update_ne t.phase p n) (v.laid j)
        ];
        accessed = λ j addr h. elim (ℕ_discrete i j) [
          | yes e ↦ rw (update_self t.phase p e) (mine addr (of_self j addr e h)).0
          | no n ↦
              let h' = of_other j addr n h in
              rw (update_ne t.phase p n) ((others j addr n h').0 ∙ v.accessed j addr h')
        ];
        untracked = λ j addr n h. elim (ℕ_discrete i j) [
          | yes e ↦ (mine addr (of_self j addr e h)).1 n
          | no ne ↦ (others j addr ne (of_other j addr ne h)).1 n
        ];
        apart = λ j j' addr h h'. elim (ℕ_discrete i j) [
          | yes e ↦ elim (ℕ_discrete i j') [
            | yes e' ↦ sym e ∙ e'
            | no n' ↦ absurd ((mine addr (of_self j addr e h)).2 j' n' (of_other j' addr n' h'))
          ]
          | no n ↦ elim (ℕ_discrete i j') [
            | yes e' ↦ absurd ((mine addr (of_self j' addr e' h')).2 j n (of_other j addr n h))
            | no n' ↦ v.apart j j' addr (of_other j addr n h) (of_other j' addr n' h')
          ]
        ];
      }
        where
          of_self :
              (j addr : ℕ) → i ≡ j → flies (update t.phase i p j) addr ≡ true → flies p addr ≡ true
          of_self j addr e h = subst (λ q. flies q addr ≡ true) (update_self t.phase p e) h

          of_other :
              (j addr : ℕ)
              → i ≢ j
              → flies (update t.phase i p j) addr ≡ true
              → flies (t.phase j) addr ≡ true
          of_other j addr n h = subst (λ q. flies q addr ≡ true) (update_ne t.phase p n) h
