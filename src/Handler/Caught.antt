-- ===== src/Handler/Caught.antt =====
-- The allocator, the access of memory and the report together: what becomes of a write out of bounds.
pub mod Guard
pub mod Freed
pub mod Tests
use coffin.Prelude.{
  ℕ, ◌<◌, ◌≡◌, refl, ap, ◌∙◌, Bool, true, false, ◌++◌, List, [], ◌∷◌, some, arith, leb-false,
  if◌then◌else◌,
}
use mathlib.Core.List.{append-nil}
use coffin.Registry.{Arena}
use coffin.Fault.{FaultInfo, classify, read_ips}
use coffin.Handler.{
  Piece, put, Symbol, is_wild, is_use_after_free, offset_line, buffer_lines, framed, region_lines,
  report, found_lines, dump_stack,
}

pub read_ips-alloc :
    (a : Arena) (slot : ℕ) → slot < a.cap → read_ips a slot false ≡ (a.slots slot).alloc_ips
unfolding read_ips
read_ips-alloc a slot h = rw (leb-false a.cap slot h, read_ips) refl

pub read_ips-free :
    (a : Arena) (slot : ℕ) → slot < a.cap → read_ips a slot true ≡ (a.slots slot).free_ips
unfolding read_ips
read_ips-free a slot h = rw (leb-false a.cap slot h, read_ips) refl

module _ (resolve : ℕ → List Symbol) (sigsegv sigbus page sig addr : ℕ) (symbolize : Bool) where
  -- The report of a region that `classify` found.
  pub report-region :
      (a : Arena) (fi : FaultInfo)
      → classify page a addr ≡ fi
      → is_wild fi.kind ≡ false
      → report resolve sigsegv sigbus page (some a) sig addr symbolize
        ≡ framed sigsegv sigbus sig addr symbolize
            (some fi.kind)
            (region_lines resolve a fi addr symbolize)
  unfolding report found_lines
  report-region a fi e w = rw (e, report) (rw w refl)

  -- The lines on a region that is not freed, and on one that is.
  pub region_lines-live :
      (a : Arena) (fi : FaultInfo) (distance stack : List Piece)
      → is_use_after_free fi.kind ≡ false
      → offset_line fi addr ≡ distance
      → dump_stack resolve a fi.slot false symbolize ≡ stack
      → region_lines resolve a fi addr symbolize
        ≡ buffer_lines fi ++ (distance ++ (put "  allocated at  :\n" ∷ stack))
  unfolding region_lines
  region_lines-live a fi distance stack kind far at =
      rw (kind, far, at, region_lines)
        (ap (λ ls. buffer_lines fi ++ (distance ++ (put "  allocated at  :\n" ∷ ls)))
          (append-nil stack))

  pub region_lines-freed :
      (a : Arena) (fi : FaultInfo) (distance stack freed_stack : List Piece)
      → is_use_after_free fi.kind ≡ true
      → offset_line fi addr ≡ distance
      → dump_stack resolve a fi.slot false symbolize ≡ stack
      → dump_stack resolve a fi.slot true symbolize ≡ freed_stack
      → region_lines resolve a fi addr symbolize
        ≡ buffer_lines fi
          ++ (distance
              ++ (put "  allocated at  :\n" ∷ (stack ++ (put "  freed at      :\n" ∷ freed_stack))))
  unfolding region_lines
  region_lines-freed a fi distance stack freed_stack kind far at freed_at =
      rw (kind, far, at, freed_at, region_lines) refl
