-- ===== src/Handler/Stack.antt =====
-- The stack in the report.
use coffin.Prelude.{
  ℕ, zero, suc, ◌<◌, ◌≡◌, Bool, false, refl, List, [], ◌∷◌, ◌++◌, take, arith, if◌then◌else◌, true,
}
use mathlib.Core.List.{append-nil}
use coffin.Registry.{Arena, ip_depth, capture, capture_ips}
use coffin.Fault.{read_ips}
use coffin.Handler.{Piece, put, hex, Symbol, symbolize_ip, frames, any_frame, dump_stack}

-- No frame has the address 0.
abbrev pub AllPositive : List ℕ → Type 0
AllPositive [] = Unit
AllPositive (ip ∷ ips) = (0 < ip) × AllPositive ips

module _ (resolve : ℕ → List Symbol) where
  -- A line for each frame, and its symbols if these are asked for.
  abbrev pub lines : Bool → List ℕ → List Piece
  lines symbolize [] = []
  lines symbolize (ip ∷ ips) =
      put "      "
      ∷ hex ip
      ∷ put "\n"
      ∷ (if symbolize then symbolize_ip resolve ip ++ lines symbolize ips else lines symbolize ips)

  -- The places left over print nothing.
  frames-rest : (symbolize : Bool) (n : ℕ) → frames resolve symbolize (capture n []) ≡ []
  unfolding frames capture
  frames-rest symbolize zero = refl
  frames-rest symbolize (suc n) = frames-rest symbolize n

  -- Of a stack whose frames have positive addresses, captured in `n` places, the report prints the
  -- first `n` frames in their order, and no other.
  pub frames-capture :
      (symbolize : Bool) (n : ℕ) (ips : List ℕ)
      → AllPositive ips
      → frames resolve symbolize (capture n ips) ≡ lines symbolize (take n ips)
  unfolding frames capture
  frames-capture symbolize zero ips ok = refl
  frames-capture symbolize (suc n) [] ok = frames-rest symbolize n
  frames-capture symbolize (suc n) (ip ∷ ips) ok =
      ground (arith, ok.0, frames-capture symbolize n ips ok.1)

  -- The lines of a stack: those of its first 16 frames, or that there are none.
  abbrev pub stack_lines : Bool → List ℕ → List Piece
  stack_lines symbolize [] = put "      <no frames captured>\n" ∷ []
  stack_lines symbolize (ip ∷ ips) = lines symbolize (take ip_depth (ip ∷ ips))

any_frame-rest : (n : ℕ) → any_frame (capture n []) ≡ false
unfolding any_frame capture
any_frame-rest zero = refl
any_frame-rest (suc n) = any_frame-rest n

any_frame-some : (n ip : ℕ) (ips : List ℕ) → 0 < ip → any_frame (capture (suc n) (ip ∷ ips)) ≡ true
unfolding any_frame capture
any_frame-some n ip ips h = ground arith

module _ (resolve : ℕ → List Symbol) where
  -- What the report prints of the stack that a slot has captured.
  pub dump_stack-captured :
      (a : Arena) (slot : ℕ) (free symbolize : Bool) (ips : List ℕ)
      → read_ips a slot free ≡ capture_ips ips
      → AllPositive ips
      → dump_stack resolve a slot free symbolize ≡ stack_lines resolve symbolize ips
  unfolding dump_stack capture_ips
  dump_stack-captured a slot free symbolize [] e ok =
      rw (e, dump_stack, frames-rest resolve symbolize ip_depth, any_frame-rest ip_depth) refl
  dump_stack-captured a slot free symbolize (ip ∷ ips) e ok =
      rw
        (
          e,
          dump_stack,
          frames-capture resolve symbolize ip_depth (ip ∷ ips) ok,
          any_frame-some 15 ip ips ok.0,
        )
        (append-nil _)
