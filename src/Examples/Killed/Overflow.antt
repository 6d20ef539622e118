-- ===== src/Examples/Killed/Overflow.antt =====
-- overflow.rs: a store one byte past the end of a vector of 64 bytes.
use coffin.Prelude.{
  ℕ, ◌+◌, ◌≤◌, ◌<◌, ◌≡◌, refl, sym, ap, ◌∙◌, false, true, some, List, [], Option, arith, ◌==◌, word,
  wrapping_add, pow-pos,
}
use Prim.Native.String.{String}
use mathlib.Core.Path.{subst}
use coffin.Config.{above}
use coffin.Region.{Layout, Geometry, geometry_for}
use coffin.Region.Bounds.{Fences, Fences-of}
use coffin.Region.Map.{done, map_region}
use coffin.Registry.{Arena}
use coffin.Fault.{overflow}
use coffin.Allocator.{coffin_alloc}
use coffin.Allocator.Guarded.Alloc.{IsFenced}
use coffin.Handler.{framed}
use coffin.Handler.Caught.Guard.{guard_lines, guard-caught}
use coffin.Startup.{Statics}
use coffin.Examples.{Setup, page_size, zeroed_vec, returned, overflow_main, overflow_body}
use coffin.Examples.Memory.{
  IsKernel, task, armed_world, armed_world-IsFenced, under_arm-kept, allocate-done, pos_nonzero,
}
use coffin.Examples.Killed.{IsStarted, IsKilled, write_volatile-IsKilled, and_then-IsKilled}

-- The vector.
abbrev pub vec_layout : Layout
vec_layout = record { size = 64; align = 1 }

-- The byte behind it is the first one of the guard page.
next_byte :
    (page base : ℕ) (g : Geometry)
    → Fences vec_layout page above g
    → base + g.map_len < word
    → wrapping_add (base + g.user_off) 64 ≡ base + g.guard_off
next_byte page base g f inside = omega (arith, f.abuts, f.guard_inside, f.abuts.3.1 refl)

no_distance :
    (page base d : ℕ) (g : Geometry)
    → Fences vec_layout page above g
    → base + g.user_off + 64 + d ≡ base + g.guard_off
    → d ≡ 0
no_distance page base d g f e = omega (arith, f.abuts, f.abuts.3.1 refl)

module _ (s : Setup) where
  open s use {os, mode}

  zeroed_vec-done :
      (a b : Arena) (w w' : os.World) (ps : List (Option String)) (ptr : ℕ)
      → coffin_alloc os mode (page_size s) vec_layout a w ≡ done (ptr, b, w')
      → (ptr == 0) ≡ false
      → zeroed_vec s 64 (task s a ps w) ≡ returned ptr (task s b ps (os.write_bytes ptr 0 64 w'))
  unfolding zeroed_vec
  zeroed_vec-done a b w w' ps ptr e nz =
      rw (allocate-done s vec_layout a b w w' ps ptr e, zeroed_vec) (rw nz refl)

  module _ (kernel : IsKernel s) (g : Geometry)
      (geo : geometry_for vec_layout above (page_size s) ≡ some g) (up : mode ≡ above)
      (small : s.page_exp ≤ 32) where
    open s use {resolve, sigsegv, sigbus, signal, settings, page_exp}
    open kernel use {sys}

    vec-Fences : Fences vec_layout (page_size s) above g
    vec-Fences =
        Fences-of vec_layout 0 page_exp above g
          (record {
            aligned = refl;
            within_page = omega arith;
            page_small = small;
            size_small = omega arith;
          })
          geo

    guard_reached : (base : ℕ) → base + g.guard_off < base + g.guard_off + page_size s
    guard_reached base = omega (arith, pow-pos page_exp)

    -- The program behind `arm`.
    body-IsKilled :
        {k : ℕ} {a : Arena} {w : os.World}
        → IsFenced os sys k a w
        → (base : ℕ) → (os.mmap g.map_len w).0 ≡ some base
        → (os.mprotect_none (base + g.guard_off) (page_size s) (os.mmap g.map_len w).1).0 ≡ true
        → a.live + a.q_len < a.cap
        → IsKilled s (overflow_body s (task s a [] w)) [] (
            framed sigsegv sigbus signal (base + g.guard_off) settings.symbolize (some overflow) (
              guard_lines resolve sigsegv sigbus signal
                (base + g.guard_off)
                settings.symbolize
                os
                sys
                above
                vec_layout
                g
                base
                0
                (os.trace (map_region os (page_size s) vec_layout g w).1)))
    unfolding overflow_body
    body-IsKilled {a = a} {w = w} v base at sealing room =
        let (b, d, ran, fenced, seal, far, told) =
          guard-caught resolve sigsegv sigbus signal (base + g.guard_off) settings.symbolize os sys
            v vec_layout above g vec-Fences geo base at sealing room (kernel.frames _) (omega arith)
            (guard_reached base) in
        let w' = (map_region os (page_size s) vec_layout g w).1 in
        rw
          (
            zeroed_vec-done a b w w' [] (base + g.user_off)
                (subst
                  (λ m.
                    coffin_alloc os m (page_size s) vec_layout a w
                    ≡ done (base + g.user_off, b, w'))
                  (sym up) ran)
                (pos_nonzero base g.user_off (kernel.mmap_nonnull g.map_len base w at)),
            overflow_body,
          )
          (rw (next_byte (page_size s) base g vec-Fences (sys.mmap_inside g.map_len base w at)) (
            and_then-IsKilled s _ _ _ _ (
              write_volatile-IsKilled s (base + g.guard_off) 0xFF (task s b [] _) _
                (kernel.store_sealed _ _ _
                  (sys.write_bytes_access (base + g.user_off) 0 64 w' (base + g.guard_off) ∙ seal))
                (told
                  ∙ ap
                      (λ n.
                        framed sigsegv sigbus signal (base + g.guard_off) settings.symbolize
                          (some overflow)
                          (guard_lines resolve sigsegv sigbus signal (base + g.guard_off)
                            settings.symbolize os sys above vec_layout g base n (os.trace w')))
                      (no_distance (page_size s) base d g vec-Fences far)))))

    -- On a system that keeps the laws, with pages of at most 2 ^ 32 bytes, in above mode, in a
    -- process past its first allocation whose regions are guarded, where the system serves the
    -- vector and the table has room: the program is ended by the handler at the store, with the
    -- report of an overflow 0 bytes past the end of the vector.
    pub overflow-IsKilled :
        {k : ℕ} {a : Arena} {w : os.World}
        → IsFenced os sys k a w
        → (st : Statics) → IsStarted st a
        → (base : ℕ) → (os.mmap g.map_len (armed_world s w)).0 ≡ some base
        → (os.mprotect_none
            (base + g.guard_off)
            (page_size s)
            (os.mmap g.map_len (armed_world s w)).1).0
          ≡ true
        → a.live + a.q_len < a.cap
        → IsKilled s (overflow_main s st (some false) w) [] (
            framed sigsegv sigbus signal (base + g.guard_off) settings.symbolize (some overflow) (
              guard_lines resolve sigsegv sigbus signal
                (base + g.guard_off)
                settings.symbolize
                os
                sys
                above
                vec_layout
                g
                base
                0
                (os.trace (map_region os (page_size s) vec_layout g (armed_world s w)).1)))
    overflow-IsKilled {a = a} {w = w} v st started base at sealing room =
        rw (under_arm-kept s _ st w a started.alt_stack started.arena)
          (body-IsKilled (armed_world-IsFenced s kernel v) base at sealing room)
