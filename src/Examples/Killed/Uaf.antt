-- ===== src/Examples/Killed/Uaf.antt =====
-- uaf.rs: a store to a pointer that was given back.
use coffin.Prelude.{
  ℕ, ◌+◌, ◌≤◌, ◌<◌, ◌≡◌, refl, ap, ◌∙◌, false, true, some, List, [], ◌∷◌, Option, arith, ◌==◌,
  pow-pos, update_self,
}
use Prim.Native.String.{String}
use mathlib.Core.Path.{subst}
use coffin.Config.{Mode, above, below}
use coffin.Platform.{Platform}
use coffin.Platform.Laws.{IsSystem, writable, within}
use coffin.Region.{Layout, Geometry, geometry_for}
use coffin.Region.Bounds.{Fences, Fences-of}
use coffin.Region.Map.{map_region}
use coffin.Registry.{Arena, Region, ready}
use coffin.Registry.Lookup.{Tracks}
use coffin.Fault.{use_after_free, covers}
use coffin.Allocator.Detect.{report_of}
use coffin.Allocator.Guarded.Map.{map_region-access}
use coffin.Allocator.Guarded.Alloc.{IsFenced, coffin_alloc-served, stored, new_slot, guard_start}
use coffin.Handler.{framed}
use coffin.Handler.Caught.Freed.{freed_info, freed_lines, freed-caught}
use coffin.Inspect.{slot_state}
use coffin.Inspect.Accounts.{slot_state-ready}
use coffin.Startup.{Statics}
use coffin.Examples.{
  Setup, page_size, allocate, release, write_volatile, print_state, returned, uaf_layout, uaf_body,
  uaf_main,
}
use coffin.Examples.Memory.{
  IsKernel, task, armed_world, armed_world-IsFenced, same-IsFenced, under_arm-kept, allocate-done,
  release-done, write_volatile-some, pos_nonzero,
}
use coffin.Examples.Once.{no_padding, check_padding-unpadded, ended}
use coffin.Examples.Killed.{IsStarted, IsKilled, write_volatile-IsKilled}

module _ (l : Layout) (page : ℕ) (g : Geometry) (base : ℕ) where
  -- The start of a buffer is in its region and off its guard page.
  user_off_guard :
      (m : Mode)
      → Fences l page m g
      → 0 < page
      → within (base + g.guard_off) page (base + g.user_off) ≡ false
  user_off_guard above f h = ground (arith, f.abuts.0)
  user_off_guard below f h = ground (arith, f.abuts)

  user_in_region : (m : Mode) → Fences l page m g → within base g.map_len (base + g.user_off) ≡ true
  user_in_region m f = ground (arith, f.buffer_inside)

  user_writable :
      (m : Mode) (f : Fences l page m g) (h : 0 < page) (os : Platform) (sys : IsSystem os page)
      (w : os.World)
      → (os.mmap g.map_len w).0 ≡ some base
      → (os.mprotect_none (base + g.guard_off) page (os.mmap g.map_len w).1).0 ≡ true
      → sys.access (base + g.user_off) (map_region os page l g w).1 ≡ writable
  user_writable m f h os sys w at s =
      map_region-access os sys l m g f w base at s (base + g.user_off)
      ∙ rw (user_off_guard m f h, user_in_region m f) refl

-- The program behind `arm`, on what each of its steps comes to.
module _ (s : Setup) where
  open s use {os, store}

  body-steps :
      (a b c : Arena) (w w₁ w₂ w₃ : os.World) (ptr : ℕ)
      → allocate s uaf_layout (task s a [] w) ≡ returned ptr (task s b [] w₁)
      → (ptr == 0) ≡ false
      → store ptr 1 w₁ ≡ some w₂
      → ((ps : List (Option String))
          → release s ptr uaf_layout (task s b ps w₂) ≡ returned tt (task s c ps w₃))
      → uaf_body s (task s a [] w)
        ≡ write_volatile s ptr 2 (task s c (slot_state b ptr ∷ slot_state c ptr ∷ []) w₃)
  unfolding uaf_body print_state
  body-steps a b c w w₁ w₂ w₃ ptr e nz e₁ e₂ =
      rw (e, uaf_body)
        (rw nz (
          rw (write_volatile-some s ptr 1 (task s b [] w₁) w₂ e₁)
            (rw (e₂ (slot_state b ptr ∷ [])) refl)))

module _ (s : Setup) (kernel : IsKernel s) (g : Geometry)
    (geo : geometry_for uaf_layout s.mode (page_size s) ≡ some g) (three : 3 ≤ s.page_exp)
    (small : s.page_exp ≤ 32) where
  open s use {os, mode, resolve, sigsegv, sigbus, signal, settings, page_exp}
  open kernel use {sys}

  uaf-Fences : Fences uaf_layout (page_size s) mode g
  uaf-Fences =
      Fences-of uaf_layout 3 page_exp mode g
        (record {
          aligned = refl;
          within_page = three;
          page_small = small;
          size_small = omega arith;
        })
        geo

  -- The program behind `arm`.
  uaf_body-IsKilled :
      {k : ℕ} {a : Arena} {w : os.World}
      → IsFenced os sys k a w
      → (base : ℕ) → (os.mmap g.map_len w).0 ≡ some base
      → (os.mprotect_none (base + g.guard_off) (page_size s) (os.mmap g.map_len w).1).0 ≡ true
      → a.live + a.q_len < a.cap
      → ((u : os.World)
          → s.store (base + g.user_off) 1 (map_region os (page_size s) uaf_layout g w).1 ≡ some u
          → (os.mprotect_none base g.map_len u).0 ≡ true)
      → (u : os.World) × (s.store
            (base + g.user_off)
            1
            (map_region os (page_size s) uaf_layout g w).1
          ≡ some u)
        × IsKilled s (uaf_body s (task s a [] w)) (some "ready" ∷ some "freed" ∷ []) (
            framed sigsegv sigbus signal
              (base + g.user_off)
              settings.symbolize
              (some use_after_free)
              (freed_lines resolve sigsegv sigbus signal
                (base + g.user_off)
                settings.symbolize
                os
                sys
                (report_of use_after_free 0 uaf_layout g base)
                (os.trace (map_region os (page_size s) uaf_layout g w).1)
                (os.trace u)))
  uaf_body-IsKilled {a = a} {w = w} v base at sealing room sealable =
      let f = uaf-Fences in
      let (i, h, ran, fenced) =
        coffin_alloc-served os sys v uaf_layout mode g f geo base at sealing room in
      let w₁ = (map_region os (page_size s) uaf_layout g w).1 in
      let ptr = base + g.user_off in
      let b = stored os sys v uaf_layout mode g f base at sealing i in
      let slot : b.slots i ≡ new_slot os sys v uaf_layout mode g f base at sealing i =
        update_self a.slots (new_slot os sys v uaf_layout mode g f base at sealing i) {i = i}
          refl in
      let open_page = pow-pos page_exp in
      let (w₂, wrote, same) =
        kernel.store_writable ptr 1 w₁
          (user_writable uaf_layout (page_size s) g base mode f open_page os sys w at sealing) in
      let fenced₂ = same-IsFenced s kernel fenced w₂ same in
      let t : Tracks b.slots b.cap ptr i = (h, rw slot refl, rw slot refl) in
      let live : (b.slots i).state ≡ ready = rw slot refl in
      let c : covers (b.slots i) ptr ≡ true =
        subst (λ p. covers (b.slots i) p ≡ true) t.2 (fenced₂.guarded.whole i h t.1).user_inside in
      let (b', w₃, u, freed, checked, fenced₃, gone, seal, told) =
        freed-caught resolve sigsegv sigbus signal ptr settings.symbolize os sys fenced₂ uaf_layout
          mode g f geo ptr i t
          (rw slot (refl, refl, guard_start os sys v uaf_layout mode g f base at sealing)) live
          (λ x h. rw slot (
            subst (λ y. (os.mprotect_none base g.map_len y).0 ≡ true)
              (ended
                (check_padding-unpadded (page_size s) uaf_layout mode
                  (no_padding uaf_layout mode (page_size s) g f refl) geo os ptr w₂)
                h)
              (sealable w₂ wrote)))
          (os.trace w₁) (ap (λ (r : Region). r.alloc_ips) slot) (kernel.frames w₁) kernel.frames
          c in
      let same_world : u ≡ w₂ = cc (
        check_padding-unpadded (page_size s) uaf_layout mode
            (no_padding uaf_layout mode (page_size s) g f refl) geo os ptr w₂,
        checked,
      ) in
      let nz = pos_nonzero base g.user_off (kernel.mmap_nonnull g.map_len base w at) in
      (
        w₂,
        wrote,
        rw
            (body-steps s a b b' w w₁ w₂ w₃ ptr (allocate-done s uaf_layout a b w w₁ [] ptr ran) nz
              wrote (λ ps. release-done s ptr uaf_layout b b' w₂ w₃ ps nz freed))
            (rw (slot_state-ready os fenced.valid w₁ ptr i t live, gone)
              (write_volatile-IsKilled s ptr 2 (task s b' (some "ready" ∷ some "freed" ∷ []) w₃) _
                (kernel.store_sealed ptr 2 w₃ seal)
                (told ∙ λ j.
                  framed sigsegv sigbus signal ptr settings.symbolize (some use_after_free) (
                    freed_lines resolve sigsegv sigbus signal ptr settings.symbolize os sys
                      (freed_info (slot j) i) (os.trace w₁) (os.trace (same_world j)))))),
      )

  -- On a system that keeps the laws, with pages of 8 to 2 ^ 32 bytes, in a process past its first
  -- allocation whose regions are guarded, where the system serves the allocation and the table has
  -- room, and where `mprotect` seals the region in the world that the first store leaves, which is
  -- where the program calls it: the program prints "ready" and "freed" for the pointer, and is then
  -- ended by the handler at the second store, with the report of a use after free at the start of the
  -- buffer and the stacks of the allocation and of the free.
  pub uaf-IsKilled :
      {k : ℕ} {a : Arena} {w : os.World}
      → IsFenced os sys k a w
      → (st : Statics) → IsStarted st a
      → (base : ℕ) → (os.mmap g.map_len (armed_world s w)).0 ≡ some base
      → (os.mprotect_none
          (base + g.guard_off)
          (page_size s)
          (os.mmap g.map_len (armed_world s w)).1).0
        ≡ true
      → a.live + a.q_len < a.cap
      → ((u : os.World)
          → s.store
              (base + g.user_off)
              1
              (map_region os (page_size s) uaf_layout g (armed_world s w)).1
            ≡ some u
          → (os.mprotect_none base g.map_len u).0 ≡ true)
      → let allocated = (map_region os (page_size s) uaf_layout g (armed_world s w)).1 in
        (u : os.World) × (s.store (base + g.user_off) 1 allocated ≡ some u)
        × IsKilled s (uaf_main s st (some false) w) (some "ready" ∷ some "freed" ∷ []) (
            framed sigsegv sigbus signal
              (base + g.user_off)
              settings.symbolize
              (some use_after_free)
              (freed_lines resolve sigsegv sigbus signal
                (base + g.user_off)
                settings.symbolize
                os
                sys
                (report_of use_after_free 0 uaf_layout g base)
                (os.trace allocated)
                (os.trace u)))
  uaf-IsKilled {a = a} {w = w} v st started base at sealing room sealable =
      rw (under_arm-kept s _ st w a started.alt_stack started.arena)
        (uaf_body-IsKilled (armed_world-IsFenced s kernel v) base at sealing room sealable)
