-- ===== src/Allocator/Guarded.antt =====
-- The tracked regions and the access to their addresses.
pub mod Map
pub mod Alloc
pub mod Free
pub mod Dealloc
use coffin.Prelude.{
  ℕ, ◌+◌, ◌%◌, ◌≤◌, ◌<◌, ◌≡◌, ◌≢◌, refl, sym, ap, ◌∙◌, Bool, true, false, arith, if◌then◌else◌,
  update, update_self, update_ne, word,
}
use mathlib.Core.Path.{subst}
use native.Mathlib.Decide.{ℕ_discrete}
use coffin.Platform.{Platform}
use coffin.Platform.Laws.{Access, writable, sealed, is_ours, IsSystem}
use coffin.Registry.{SlotState, is_vacant, is_freed, Region}
use coffin.Fault.{covers, in_guard}
use coffin.Fault.Scan.{Holds, IsApart}
use coffin.Fault.Apart.{Holds-stored, Holds-other, update-IsApart}

-- A tracked region is whole pages inside the address space, and its buffer starts in it.
pub record IsWhole (page : ℕ) (r : Region) : Type 0 where
  pub base_whole : r.base % page ≡ 0
  pub len_whole : r.total_len % page ≡ 0
  pub inside : r.base + r.total_len < word
  pub user_inside : covers r r.user_ptr ≡ true

-- The access that the state of a region promises: everything sealed once it is freed, the guard page
-- before.
abbrev pub promised : ℕ → Region → ℕ → Access
promised page r addr =
    if is_freed r.state then sealed else if in_guard page r addr then sealed else writable

pub promised-is_ours : (page : ℕ) (r : Region) (addr : ℕ) → is_ours (promised page r addr) ≡ true
promised-is_ours page r addr = ground arith

module _ (os : Platform) {page : ℕ} (sys : IsSystem os page) where
  open sys use {access}

  pub record IsGuarded (slots : ℕ → Region) (cap : ℕ) (w : os.World) : Type 0 where
    pub apart : IsApart slots cap
    pub whole : (i : ℕ) → i < cap → is_vacant (slots i).state ≡ false → IsWhole page (slots i)
    pub fenced :
        (addr i : ℕ) → Holds slots cap addr i → access addr w ≡ promised page (slots i) addr

  module _ {slots : ℕ → Region} {cap : ℕ} {w : os.World} (v : IsGuarded slots cap w) where
    pub Holds-is_ours : (addr i : ℕ) → Holds slots cap addr i → is_ours (access addr w) ≡ true
    Holds-is_ours addr i h = rw (v.fenced addr i h) (promised-is_ours page (slots i) addr)

    -- A change of the world that leaves the program's own addresses alone.
    pub world-IsGuarded :
        (w' : os.World)
        → ((addr : ℕ) → is_ours (access addr w) ≡ true → access addr w' ≡ access addr w)
        → IsGuarded slots cap w'
    world-IsGuarded w' kept = record {
      apart = v.apart;
      whole = v.whole;
      fenced = λ addr i h. kept addr (Holds-is_ours addr i h) ∙ v.fenced addr i h;
    }

    module _ (i : ℕ) (r : Region) where
      -- A store into a slot and a change of the world that leaves the regions of the others alone.
      pub update-IsGuarded :
          (w' : os.World)
          → ((addr j : ℕ) → i ≢ j → Holds slots cap addr j → access addr w' ≡ access addr w)
          → (is_vacant r.state ≡ false → IsWhole page r)
          → ((addr j : ℕ)
              → i ≢ j
              → Holds slots cap addr j
              → is_vacant r.state ≡ false
              → covers r addr ≡ true
              → ⊥)
          → ((addr : ℕ)
              → is_vacant r.state ≡ false
              → covers r addr ≡ true
              → access addr w' ≡ promised page r addr)
          → IsGuarded (update slots i r) cap w'
      update-IsGuarded w' others sound clash fits = record {
        apart = update-IsApart slots cap i r v.apart clash;
        whole = λ j h s. elim (ℕ_discrete i j) [
          | yes e ↦ rw (update_self slots r e) (sound (rw (← update_self slots r e) s))
          | no n ↦ rw (update_ne slots r n) (v.whole j h (rw (← update_ne slots r n) s))
        ];
        fenced = λ addr j h. elim (ℕ_discrete i j) [
          | yes e ↦
              let s = Holds-stored slots cap i r addr j e h in
              rw (update_self slots r e) (fits addr s.0 s.1)
          | no n ↦
              let s = Holds-other slots cap i r addr j n h in
              rw (update_ne slots r n) (others addr j n s ∙ v.fenced addr j s)
        ];
      }
