-- ===== src/Examples/Killed/Wild.antt =====
-- wild.rs: a store to an address of no region.
use coffin.Prelude.{ℕ, ◌≡◌, refl, ◌∙◌, false, some, [], ◌∷◌}
use coffin.Platform.Laws.{absent}
use coffin.Registry.{Arena}
use coffin.Fault.{wild, classify}
use coffin.Fault.Scan.{classify-wild_iff}
use coffin.Allocator.Guarded.{Holds-is_ours}
use coffin.Allocator.Guarded.Alloc.{IsFenced}
use coffin.Handler.{put, framed, found_lines, report}
use coffin.Startup.{Statics}
use coffin.Examples.{Setup, page_size, wild_main}
use coffin.Examples.Memory.{
  IsKernel, task, armed_world, armed_world-access, armed_world-IsFenced, under_arm-kept,
}
use coffin.Examples.Killed.{IsStarted, IsKilled, write_volatile-IsKilled}

module _ (s : Setup) (kernel : IsKernel s) {k : ℕ} {a : Arena} {w : s.os.World}
    (v : IsFenced s.os kernel.sys k a w) where
  open s use {os, resolve, sigsegv, sigbus, signal, settings}
  open kernel use {sys}

  -- The report on an address that is not mapped.
  report-absent :
      {w : os.World} (v : IsFenced os sys k a w) (addr : ℕ)
      → sys.access addr w ≡ absent
      → report resolve sigsegv sigbus (page_size s) (some a) signal addr settings.symbolize
        ≡ framed sigsegv sigbus signal addr settings.symbolize
            (some wild)
            (put "  (address is not inside any live or quarantined allocation)\n" ∷ [])
  unfolding report found_lines
  report-absent v addr e =
      let kind : (classify (page_size s) a addr).kind ≡ wild =
        (classify-wild_iff (page_size s) a addr).1
          (λ i h. cc (Holds-is_ours os sys v.guarded addr i h, e)) in
      rw (kind, report) refl

  -- On a system that keeps the laws, in a process past its first allocation whose regions are
  -- guarded, where nothing is mapped at the address: the program is ended by the handler, with the
  -- report of a wild pointer.
  pub wild-IsKilled :
      (st : Statics)
      → IsStarted st a
      → sys.access 0xDEAD_0000 w ≡ absent
      → IsKilled s (wild_main s st (some false) w) [] (
          framed sigsegv sigbus signal 0xDEAD_0000 settings.symbolize
            (some wild)
            (put "  (address is not inside any live or quarantined allocation)\n" ∷ []))
  wild-IsKilled st started e =
      let gone = armed_world-access s kernel w 0xDEAD_0000 ∙ e in
      rw (under_arm-kept s _ st w a started.alt_stack started.arena) (
        write_volatile-IsKilled s 0xDEAD_0000 0x42 (task s a [] (armed_world s w)) _
          (kernel.store_absent _ _ _ gone)
          (report-absent (armed_world-IsFenced s kernel v) 0xDEAD_0000 gone))
