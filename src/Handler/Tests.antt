-- ===== src/Handler/Tests.antt =====
-- Reports of single faults.
use coffin.Prelude.{
  ℕ, ◌-◌, ◌≡◌, true, refl, [], ◌∷◌, arith, word, some, none, false, ◌^◌, List, if◌then◌else◌, ◌==◌,
}
use coffin.Config.{above, abort_with_signal}
use coffin.Samples.{small, small_geometry, host}
use coffin.Region.Tests.{small_geometry-Fences}
use coffin.Registry.{capture, Arena, new}
use coffin.Fault.{overflow, use_after_free, FaultInfo}
use coffin.Allocator.Detect.{report_of}
use coffin.Handler.{put, hex, dec, bytes, Symbol, symbol_lines, offset_line, frames}
use coffin.Handler.Handle.{Settings, handle}
use coffin.Handler.Offset.{distance_line, IsDistance, offset_line-guard, offset_line-freed}
use coffin.Region.Map.{done}
use coffin.Allocator.{alloc, dealloc}
use coffin.Handler.Reentry.{handle-reenters}
use coffin.Handler.Stack.{frames-capture}

-- The third byte of the guard page, behind 3 bytes of padding.
offset_line-guard_test :
    (d : ℕ) × (offset_line (report_of overflow 1 small small_geometry 0x10000) 0x11002
      ≡ distance_line above d)
    × IsDistance above small 0x10ff0 0x11002 d
offset_line-guard_test =
    offset_line-guard 4096 1 0x10000 0x11002 small small_geometry above small_geometry-Fences
      (omega arith) (omega arith) (omega arith)

-- One byte below a freed buffer.
abbrev freed_info : FaultInfo
freed_info = report_of use_after_free 1 small small_geometry 0x10000

offset_line-freed_test :
    offset_line freed_info 0x10fef
    ≡ put "  offset        : " ∷ dec (word - 1) ∷ put " byte(s) into the freed buffer\n" ∷ []
offset_line-freed_test = offset_line-freed freed_info 0x10fef refl (omega arith) (omega arith)

abbrev name : List ℕ
name = b'f' ∷ b'o' ∷ b'o' ∷ []

abbrev file : List ℕ
file = b'a' ∷ b'.' ∷ b'r' ∷ b's' ∷ []

-- Only the first instruction pointer has a symbol.
abbrev known : ℕ → List Symbol
known ip =
    if ip == 0x1111
    then record { display = some name; name = some name; filename = some file; lineno = some 12 }
      ∷ []
    else []

frames-capture_example :
    frames known true (capture 16 (0x1111 ∷ 0x2222 ∷ []))
    ≡ put "      "
      ∷ hex 0x1111
      ∷ put "\n"
      ∷ put "        "
      ∷ bytes name
      ∷ put "\n"
      ∷ put "          at "
      ∷ bytes file
      ∷ put ":"
      ∷ dec 12
      ∷ put "\n"
      ∷ put "      "
      ∷ hex 0x2222
      ∷ put "\n"
      ∷ []
unfolding symbol_lines
frames-capture_example =
    frames-capture known true 16 (0x1111 ∷ 0x2222 ∷ []) (omega arith, (omega arith, tt))

abbrev blank : Arena
blank = new (2 ^ 2) 1

abbrev symbols_only : Settings
symbols_only = record { symbolize = true; annotate = false; on_fault = abort_with_signal }

-- An overflow is reported while the thread is inside the allocator.
handle-reenters_example :
    let held = (handle known none 11 7 4096 symbols_only none 11 0x11000 (some true)).guard in
    (alloc host above 4096 small held blank 5 ≡ done (0x9000_0000, held, blank, 5))
    × (dealloc host above 4096 0x9000_0000 small held blank 5 ≡ done (held, blank, 5))
handle-reenters_example =
    handle-reenters host above known none 11 7 4096 symbols_only refl none 11 0x11000 (some true)
      small blank 5 0x9000_0000 (omega arith)
