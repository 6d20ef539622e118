-- ===== src/Examples/Once.antt =====
-- One buffer, from its allocation to its release.
use coffin.Prelude.{
  ℕ, ◌+◌, ◌%◌, ◌<◌, ◌≡◌, refl, false, true, some, List, Option, arith, ◌==◌, word, wrapping_add,
  update_self,
}
use Prim.Native.String.{String}
use Prim.Native.Nat.{max}
use mathlib.Core.Path.{subst}
use coffin.Config.{Mode, above, below}
use coffin.Platform.{Platform}
use coffin.Platform.Laws.{sealed}
use coffin.Region.{Layout, Geometry, geometry_for}
use coffin.Region.Bounds.{IsRequest, Fences, Fences-of}
use coffin.Region.Map.{Run, done, map_region, check_padding}
use coffin.Registry.{Arena, ready, free}
use coffin.Registry.Lookup.{Tracks}
use coffin.Registry.Invariant.{cap-le}
use coffin.Registry.Run.{free-sizes}
use coffin.Fault.{covers}
use coffin.Allocator.{coffin_dealloc}
use coffin.Allocator.Guarded.Alloc.{IsFenced, coffin_alloc-served, stored, new_slot, guard_start}
use coffin.Allocator.Guarded.Dealloc.{IsLaid, coffin_dealloc-ready}
use coffin.Handler.Caught.Freed.{state_freed, access_freed}
use coffin.Inspect.{slot_state}
use coffin.Inspect.Accounts.{slot_state-ready, free-live}
use coffin.Examples.{Setup, page_size, allocate, release, returned}
use coffin.Examples.Memory.{IsKernel, task, same-IsFenced, allocate-done, release-done, pos_nonzero}

-- Where the size is a multiple of the alignment, there is no padding.
pub no_padding :
    (l : Layout) (m : Mode) (page : ℕ) (g : Geometry)
    → Fences l page m g
    → max l.size 1 % l.align ≡ 0
    → g.pad ≡ 0
no_padding l above page g f whole = f.abuts.3.1 whole
no_padding l below page g f whole = f.abuts.2

pub check_padding-unpadded :
    (page : ℕ) {g : Geometry} (l : Layout) (m : Mode)
    → g.pad ≡ 0
    → geometry_for l m page ≡ some g
    → (os : Platform) (ptr : ℕ) (w : os.World) → check_padding os page ptr l m w ≡ done w
unfolding check_padding
check_padding-unpadded page l m none_needed geo os ptr w =
    rw (geo, check_padding) (rw none_needed refl)

-- A call that ends in two worlds ends in one.
pub ended : {World : Type 0} {r : Run World} {w w' : World} → r ≡ done w → r ≡ done w' → w ≡ w'
ended e e' = cc (e, e')

lost_one : (live now : ℕ) → live + 1 < word → now + 1 ≡ wrapping_add live 1 → now ≡ live
lost_one live now small e = omega arith

module _ (s : Setup) (kernel : IsKernel s) (l : Layout) (g : Geometry) where
  open s use {os, mode, page_exp, resolve, sigsegv, sigbus, signal, settings}
  open kernel use {sys}

  -- What an allocation and its release leave of an arena, where the world is `w₂` in between.
  pub record IsOnce (k : ℕ) (a : Arena) (w : os.World) (base : ℕ) (w₂ : os.World) : Type 0 where
    pub between : Arena
    pub allocated :
        (ps : List (Option String))
        → allocate s l (task s a ps w)
          ≡ returned (base + g.user_off) (task s between ps (map_region os (page_size s) l g w).1)
    pub nonnull : (base + g.user_off == 0) ≡ false
    pub is_ready : slot_state between (base + g.user_off) ≡ some "ready"
    pub released :
        (ps : List (Option String))
        → release s (base + g.user_off) l (task s between ps w₂)
          ≡ returned tt (
              task s
                (free os (base + g.user_off) g.map_len between w₂).1
                ps
                (free os (base + g.user_off) g.map_len between w₂).2)
    pub is_freed :
        slot_state (free os (base + g.user_off) g.map_len between w₂).1 (base + g.user_off)
        ≡ some "freed"
    pub gone :
        sys.access (base + g.user_off) (free os (base + g.user_off) g.map_len between w₂).2 ≡ sealed
    pub fenced :
        IsFenced os sys k
          (free os (base + g.user_off) g.map_len between w₂).1
          (free os (base + g.user_off) g.map_len between w₂).2
    pub counts :
        let c = (free os (base + g.user_off) g.map_len between w₂).1 in
        a.evictions + 1 < word
        → (c.live ≡ a.live)
          × (c.cap ≡ a.cap)
          × (c.q_cap ≡ a.q_cap)
          × (c.q_len + c.evictions ≡ a.q_len + a.evictions + 1)

  pub once :
      {k : ℕ} {a : Arena} {w : os.World} (e : ℕ)
      → IsRequest l e page_exp
      → geometry_for l mode (page_size s) ≡ some g
      → g.pad ≡ 0
      → IsFenced os sys k a w
      → (base : ℕ) → (os.mmap g.map_len w).0 ≡ some base
      → (os.mprotect_none (base + g.guard_off) (page_size s) (os.mmap g.map_len w).1).0 ≡ true
      → a.live + a.q_len < a.cap
      → (w₂ : os.World) → (os.mprotect_none base g.map_len w₂).0 ≡ true
      → ((x : ℕ) → sys.access x w₂ ≡ sys.access x (map_region os (page_size s) l g w).1)
      → IsOnce k a w base w₂
  once {k = k} {a = a} {w = w} e r geo unpadded v base at sealing room w₂ sealable same =
      let f = Fences-of l e page_exp mode g r geo in
      let (i, h, ran, fenced) = coffin_alloc-served os sys v l mode g f geo base at sealing room in
      let ptr = base + g.user_off in
      let b = stored os sys v l mode g f base at sealing i in
      let slot : b.slots i ≡ new_slot os sys v l mode g f base at sealing i =
        update_self a.slots (new_slot os sys v l mode g f base at sealing i) {i = i} refl in
      let v₂ = same-IsFenced s kernel fenced w₂ same in
      let t : Tracks b.slots b.cap ptr i = (h, rw slot refl, rw slot refl) in
      let live : (b.slots i).state ≡ ready = rw slot refl in
      let laid : IsLaid (b.slots i) g =
        rw slot (refl, refl, guard_start os sys v l mode g f base at sealing) in
      let c : covers (b.slots i) ptr ≡ true =
        subst (λ p. covers (b.slots i) p ≡ true) t.2 (v₂.guarded.whole i h t.1).user_inside in
      let nz = pos_nonzero base g.user_off (kernel.mmap_nonnull g.map_len base w at) in
      let (u, checked, ran_back, fenced₃) =
        coffin_dealloc-ready os sys v₂ l mode g f geo ptr i t laid live (λ x h. rw slot (
          subst (λ y. (os.mprotect_none base g.map_len y).0 ≡ true)
            (ended (check_padding-unpadded (page_size s) l mode unpadded geo os ptr w₂) h)
            sealable)) in
      let same_world : u ≡ w₂ =
        cc (check_padding-unpadded (page_size s) l mode unpadded geo os ptr w₂, checked) in
      let fenced₄ =
        subst (λ x. IsFenced os sys k (free os ptr g.map_len b x).1 (free os ptr g.map_len b x).2)
          same_world fenced₃ in
      record {
        between = b;
        allocated = λ ps. allocate-done s l a b w _ ps ptr ran;
        nonnull = nz;
        is_ready = slot_state-ready os v₂.valid w₂ ptr i t live;
        released = λ ps. release-done s ptr l b _ w₂ _ ps nz (
            subst
              (λ x.
                coffin_dealloc os mode (page_size s) ptr l b w₂
                ≡ done ((free os ptr g.map_len b x).1, (free os ptr g.map_len b x).2))
              same_world ran_back);
        is_freed =
            state_freed resolve sigsegv sigbus signal ptr settings.symbolize os sys v₂ l mode g f
              geo ptr i t laid live w₂;
        gone =
            access_freed resolve sigsegv sigbus signal ptr settings.symbolize os sys v₂ l mode g f
              geo ptr i t laid live w₂ fenced₄ c;
        fenced = fenced₄;
        counts = λ few.
            let n = free-live os v₂.valid w₂ ptr g.map_len i t live few in
            let sizes = free-sizes os b w₂ ptr g.map_len in
            (lost_one a.live _ (omega (arith, room, cap-le v.valid)) n.0, sizes.0, sizes.1, n.1);
      }
