-- ===== src/Handler/Offset.antt =====
-- The distance in the report of a fault.
use coffin.Prelude.{ℕ, ◌+◌, ◌-◌, ◌≤◌, ◌<◌, ◌≡◌, List, [], ◌∷◌, arith, ap, leb, if◌then◌else◌, word}
use Prim.Native.Nat.{max}
use coffin.Config.{Mode, above, below}
use coffin.Region.{Layout, Geometry}
use coffin.Region.Bounds.{Fences}
use coffin.Fault.{use_after_free, FaultInfo}
use coffin.Allocator.Detect.{guard_kind, report_of}
use coffin.Handler.{Piece, put, dec, offset_line}

-- The line on an overflow or an underflow by so many bytes.
abbrev pub distance_line : Mode → ℕ → List Piece
distance_line above d =
    put "  overflow      : " ∷ dec d ∷ put " byte(s) past the end of the buffer\n" ∷ []
distance_line below d =
    put "  underflow     : " ∷ dec d ∷ put " byte(s) before the start of the buffer\n" ∷ []

-- The address is so many bytes past the end of the buffer at `user`, or before its start.
abbrev pub IsDistance : Mode → Layout → ℕ → ℕ → ℕ → Type 0
IsDistance above l user addr d = user + max l.size 1 + d ≡ addr
IsDistance below l user addr d = addr + d ≡ user

-- For an allocation with a fencing geometry inside the address space and an address on its guard page,
-- the report names the true distance of the address from the buffer.
pub offset_line-guard :
    (page slot base addr : ℕ) (l : Layout) (g : Geometry) (m : Mode)
    → Fences l page m g
    → base + g.map_len < word
    → base + g.guard_off ≤ addr
    → addr < base + g.guard_off + page
    → (d : ℕ) × (offset_line (report_of (guard_kind m) slot l g base) addr ≡ distance_line m d)
      × IsDistance m l (base + g.user_off) addr d
offset_line-guard page slot base addr l g above f inside lo hi = (
  addr - (base + g.user_off + max l.size 1),
  ap (distance_line above) (omega (arith, f.abuts.0, f.guard_inside)),
  omega (arith, f.abuts.0),
)
offset_line-guard page slot base addr l g below f inside lo hi = (
  base + g.user_off - addr,
  ap (distance_line below) (omega (arith, f.abuts, f.guard_inside)),
  omega (arith, f.abuts),
)

-- For a use after free, with the buffer and the address in words, the report names the distance of the
-- address from the start of the buffer if the address is not below it; below it, the number is 2 ^ 64
-- less the distance.
pub offset_line-freed :
    (fi : FaultInfo) (addr : ℕ)
    → fi.kind ≡ use_after_free
    → fi.user_ptr < word
    → addr < word
    → offset_line fi addr
      ≡ put "  offset        : "
        ∷ dec (if leb fi.user_ptr addr then addr - fi.user_ptr else word - (fi.user_ptr - addr))
        ∷ put " byte(s) into the freed buffer\n"
        ∷ []
offset_line-freed fi addr e hu ha = rw e (
    ap (λ d. put "  offset        : " ∷ dec d ∷ put " byte(s) into the freed buffer\n" ∷ [])
      (ground arith))
