-- ===== src/Examples/Inspect/Outcome.antt =====
-- How inspect.rs ends.
use coffin.Prelude.{
  ℕ, suc, ◌+◌, ◌*◌, ◌≤◌, ◌<◌, ◌≡◌, refl, sym, ◌∙◌, Bool, true, inl, inr, none, some, [], ◌∷◌, arith,
  Bool-cases, word, if◌then◌else◌,
}
use mathlib.Core.Path.{subst}
use coffin.Config.{OnFault, abort_with_signal, exit, quarantine_cap}
use coffin.Region.{Geometry, geometry_for}
use coffin.Region.Bounds.{IsRequest, Fences, Fences-of}
use coffin.Region.Map.{map_region}
use coffin.Registry.{Arena, free}
use coffin.Allocator.Guarded.Alloc.{IsFenced}
use coffin.Handler.{ending}
use coffin.Handler.Handle.{Handled, handle}
use coffin.Examples.{Setup, Task, page_size, returned, quit, killed, print_state}
use coffin.Examples.Memory.{IsKernel, task, write_volatile-none}
use coffin.Examples.Once.{no_padding, once}
use coffin.Examples.Inspect.{
  checked_layout, round_layout, signaled, touch_in_child, seal_check, inspect_main,
}
use coffin.Examples.Inspect.Ample.{IsAmple, map_region-Plenty, free-Plenty, region_seals}
use coffin.Examples.Inspect.Churn.{quarantine_check-done}

module _ (s : Setup) (shadowed : Bool) (kernel : IsKernel s) (Plenty : ℕ → s.os.World → Type 0)
    (ample : IsAmple s kernel.sys Plenty) where
  open s use {os, mode, page_exp, store, settings, quarantine}
  open kernel use {sys}

  -- The child is seen to die by a signal.
  abbrev pub is_signaled : OnFault → Bool
  is_signaled abort_with_signal = true
  is_signaled (exit code) = shadowed

  signaled-ending :
      (h : Handled) (t : Task s) (p : OnFault)
      → h.ends ≡ ending p
      → signaled s shadowed (killed h t) ≡ is_signaled p
  signaled-ending h t abort_with_signal e = rw e refl
  signaled-ending h t (exit code) e = rw e refl

  touch_in_child-done :
      (ptr : ℕ) (t : Task s)
      → store ptr 0 t.world ≡ none
      → touch_in_child s shadowed ptr t
        ≡ (if is_signaled settings.on_fault then returned tt t else quit 1 t)
  unfolding handle
  touch_in_child-done ptr t e = rw (write_volatile-none s ptr 0 t e) (
      rw
        (signaled-ending
          (handle s.resolve s.cwd s.sigsegv s.sigbus (page_size s) settings (some t.arena) s.signal
            ptr t.guard)
          t settings.on_fault refl)
        refl)

  module _ (g : Geometry) (geo : geometry_for checked_layout mode (page_size s) ≡ some g)
      (four : 4 ≤ page_exp) (small : page_exp ≤ 32) where
    checked-IsRequest : IsRequest checked_layout 4 page_exp
    checked-IsRequest = record {
      aligned = refl;
      within_page = four;
      page_small = small;
      size_small = omega arith;
    }

    checked-Fences : Fences checked_layout (page_size s) mode g
    checked-Fences = Fences-of checked_layout 4 page_exp mode g checked-IsRequest geo

    checked_small : g.map_len < 128 + 2 * page_size s
    checked_small = omega (arith, checked-Fences.tight)

    checked_unpadded : g.pad ≡ 0
    checked_unpadded = no_padding checked_layout mode (page_size s) g checked-Fences refl

    -- The first half of the program, up to what it makes of the child.
    seal_check-done :
        (n : ℕ) {k : ℕ} {a : Arena} {w : os.World}
        → IsFenced os sys k a w
        → Plenty (suc n) w
        → a.live + a.q_len < a.cap
        → a.evictions + 1 < word
        → (c : Arena) × (w' : os.World) × (let t = task s c (some "ready" ∷ some "freed" ∷ []) w' in
            seal_check s shadowed (task s a [] w)
            ≡ (if is_signaled settings.on_fault then returned tt t else quit 1 t))
          × IsFenced os sys k c w'
          × Plenty n w'
          × (c.live ≡ a.live)
          × (c.cap ≡ a.cap)
          × (c.q_cap ≡ a.q_cap)
          × (c.q_len + c.evictions ≡ a.q_len + a.evictions + 1)
    unfolding seal_check print_state
    seal_check-done n {a = a} {w = w} v p room few =
        let (base, at, sealing, q) =
          map_region-Plenty s sys Plenty ample n checked_layout g w checked-Fences checked_small
            checked_unpadded p in
        let ptr = base + g.user_off in
        let w₁ = (map_region os (page_size s) checked_layout g w).1 in
        let w₂ = os.write_bytes ptr 0xAA 128 w₁ in
        let o =
          once s kernel checked_layout g 4 checked-IsRequest geo checked_unpadded v base at sealing
            room w₂
            (region_seals s sys Plenty ample n checked_layout g w checked-Fences base at sealing w₂
              (λ x. sys.write_bytes_access ptr 0xAA 128 w₁ x)
              (ample.write_bytes n ptr 0xAA 128 w₁ q))
            (λ x. sys.write_bytes_access ptr 0xAA 128 w₁ x) in
        let counts = o.counts few in
        let back = free os ptr g.map_len o.between w₂ in
        (
          back.1,
          back.2,
          rw (o.allocated [], seal_check)
              (rw o.nonnull (
                rw (o.is_ready) (
                  rw (o.released (some "ready" ∷ [])) (
                    rw (o.is_freed) (
                      touch_in_child-done ptr
                        (task s back.1 (some "ready" ∷ some "freed" ∷ []) back.2)
                        (kernel.store_sealed ptr 0 back.2 o.gone)))))),
          o.fenced,
          free-Plenty s sys Plenty ample n ptr g.map_len o.between w₂
              (ample.write_bytes n ptr 0xAA 128 w₁ q),
          counts.0,
          counts.1,
          counts.2,
          counts.3,
        )

  module _ (g h : Geometry) (geo : geometry_for checked_layout mode (page_size s) ≡ some g)
      (geo' : geometry_for round_layout mode (page_size s) ≡ some h) (four : 4 ≤ page_exp)
      (small : page_exp ≤ 32) where
    -- On a system that keeps the laws, with pages of 16 to 2 ^ 32 bytes, in a process past its
    -- first allocation whose regions are guarded, where the ring has the places of the setting, the
    -- table more slots than live regions and these places, the system serves 101
    -- mappings more than places and `mprotect` of whole pages that the program has mapped does not fail
    -- meanwhile, and the count of evictions cannot wrap: the program
    -- prints "ready" and "freed" and comes to its end with all its assertions held, if the standard
    -- library's handler is in place or the setting is to die by the signal. If Coffin's handler is
    -- in place and the setting is an exit code, it takes the sealed page for one that is not
    -- sealed, and exits with 1.
    pub inspect_main-outcome :
        {k : ℕ} {a : Arena} {w : os.World}
        → IsFenced os sys k a w
        → a.q_cap ≡ quarantine_cap quarantine
        → Plenty (suc (a.q_cap + 100)) w
        → a.live + a.q_cap < a.cap
        → a.q_len + a.evictions + (a.q_cap + 101) < word
        → (t : Task s) × (t.printed ≡ some "ready" ∷ some "freed" ∷ [])
          × (inspect_main s shadowed (task s a [] w)
              ≡ (if is_signaled settings.on_fault then returned tt t else quit 1 t))
    unfolding inspect_main
    inspect_main-outcome {a = a} {w = w} v places p room few =
        let (c, w', ran, fenced, q, live, cap, q_cap, sum) =
          seal_check-done g geo four small (a.q_cap + 100) v p (omega (arith, v.valid.ring.len_in))
            (omega (arith, few)) in
        let (d, w'', rest) =
          quarantine_check-done s shadowed kernel Plenty ample h geo' (omega arith) small fenced
            (q_cap ∙ places) (subst (λ n. Plenty (n + 100) w') (sym q_cap) q)
            (omega (arith, live, cap, q_cap, room)) (omega (arith, sum, q_cap, few))
            (some "ready" ∷ some "freed" ∷ []) in
        elim (Bool-cases (is_signaled settings.on_fault)) [
          | inl e ↦ (
            task s d (some "ready" ∷ some "freed" ∷ []) w'',
            refl,
            rw (ran, inspect_main) (rw e rest),
          )
          | inr e ↦ (
            task s c (some "ready" ∷ some "freed" ∷ []) w',
            refl,
            rw (ran, inspect_main) (rw e refl),
          )
        ]
