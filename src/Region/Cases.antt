-- ===== src/Region/Cases.antt =====
-- src/region.rs, the tests: what they assert of each geometry, and their loops.
use coffin.Prelude.{
  ℕ, ◌+◌, ◌%◌, ◌^◌, ◌≡◌, refl, Bool, true, false, ◌&&◌, Option, none, some, List, [], ◌∷◌, arith,
  ltb, ◌==◌, if◌then◌else◌,
}
use Prim.Native.Nat.{max}
use coffin.Config.{Mode, above, below}
use coffin.Region.{Geometry, geometry_for}
use coffin.Region.Bounds.{IsRequest, geometry_for-Fences}

-- The loops, which stop at the first case that fails.
abbrev all {ℓ} : {A : Type ℓ} → List A → (A → Bool) → Bool
all [] p = true
all (x ∷ xs) p = p x && all xs p

abbrev is_aligned : ℕ → ℕ → Option Geometry → Bool
is_aligned align page none = false
is_aligned align page (some g) =
    g.user_off % align == 0 && (g.guard_off % page == 0 && g.map_len % page == 0)

-- The body of `alignment_is_always_respected`.
abbrev pub aligned_case : ℕ → ℕ → ℕ → Mode → Bool
aligned_case page align size mode =
    is_aligned align page (geometry_for (record { size = size; align = align }) mode page)

abbrev is_abutting : ℕ → ℕ → Option Geometry → Bool
is_abutting align s none = false
is_abutting align s (some g) =
    g.user_off + s + g.pad == g.guard_off
    && ((if s % align == 0 then g.pad == 0 else true) && ltb g.pad (max align 1))

-- The body of `above_mode_buffer_abuts_guard`.
abbrev pub abutting_case : ℕ → ℕ → ℕ → Bool
abutting_case page align size =
    is_abutting align (max size 1) (geometry_for (record { size = size; align = align }) above page)

abbrev pub alignment_is_always_respected : Bool
alignment_is_always_respected = all (4096 ∷ 16384 ∷ []) (λ page.
    all (1 ∷ 2 ∷ 4 ∷ 8 ∷ 16 ∷ 64 ∷ 4096 ∷ []) (λ align.
      if ltb page align
      then true
      else all (1 ∷ 7 ∷ 8 ∷ 15 ∷ 16 ∷ 17 ∷ 64 ∷ 100 ∷ 4096 ∷ 4097 ∷ 40000 ∷ [])
          (λ size. all (above ∷ below ∷ []) (aligned_case page align size))))

abbrev pub above_mode_buffer_abuts_guard : Bool
above_mode_buffer_abuts_guard = all (4096 ∷ 16384 ∷ []) (λ page.
    all (1 ∷ 8 ∷ 16 ∷ 64 ∷ [])
      (λ align. all (1 ∷ 8 ∷ 16 ∷ 17 ∷ 64 ∷ 100 ∷ 4096 ∷ 40000 ∷ []) (abutting_case page align)))

-- What the tests try at some sizes holds of every request.
cases-true :
    (size a p : ℕ) (m : Mode)
    → IsRequest (record { size = size; align = 2 ^ a }) a p
    → (aligned_case (2 ^ p) (2 ^ a) size m ≡ true) × (abutting_case (2 ^ p) (2 ^ a) size ≡ true)
cases-true size a p m r =
    let (g, e, f) = geometry_for-Fences _ a p m r in
    let (g', e', f') = geometry_for-Fences _ a p above r in
    let (touches, ends, padded, exact) = f'.abuts in
    (rw e (rw (f.user_aligned, f.guard_whole, f.map_whole) refl), rw e' (ground arith))
