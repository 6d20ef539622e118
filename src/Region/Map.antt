-- ===== src/Region/Map.antt =====
-- src/region.rs, the calls that change memory: mapping a fenced region, and the check of its padding.
use coffin.Prelude.{ℕ, zero, suc, ◌+◌, Option, none, some, ltb, ◌==◌, if◌then◌else◌}
use Prim.Native.Nat.{max}
use coffin.Config.{Mode}
use coffin.Platform.{Platform}
use coffin.Region.{Layout, Geometry, geometry_for, poison}

-- What a call comes to: a value, a failed assertion, or a fault of the processor.
pub data Run {ℓ} (A : Type ℓ) : Type ℓ where
  done : A → Run A
  panicked faulted : Run A

infixl 5 ◌>>=◌
abbrev pub ◌>>=◌ {ℓ κ} : {A : Type ℓ} {B : Type κ} → Run A → (A → Run B) → Run B
done a >>= f = f a
panicked >>= f = panicked
faulted >>= f = faulted

-- A failed assertion ends the program.
abbrev pub asserted {ℓ} : {A : Type ℓ} → Option A → Run A
asserted none = panicked
asserted (some a) = done a

-- `region_geometry`
abbrev pub region_geometry : Layout → Mode → ℕ → Run Geometry
region_geometry l mode page = asserted (geometry_for l mode page)

module _ (os : Platform) (page : ℕ) where
  open os use {World, mmap, mprotect_none, munmap, write_bytes, read_byte, write_stderr}

  -- The base and the user pointer, or `none` for the two null pointers.
  unfoldable pub map_region : Layout → Geometry → World → Option (ℕ × ℕ) × World
  map_region l g w =
      let (mapped, w₁) = mmap g.map_len w in
      elim mapped [
        | none ↦ (none, w₁)
        | some base ↦
            let (sealed, w₂) = mprotect_none (base + g.guard_off) page w₁ in
            if sealed
            then (let user = base + g.user_off in
                (
                  some (base, user),
                  if ltb 0 g.pad then write_bytes (user + max l.size 1) poison g.pad w₂ else w₂,
                ))
            else (none, munmap base g.map_len w₂)
      ]

  -- The loop of `check_padding`, with the bytes left and the address.
  unfoldable pub scan_padding : ℕ → ℕ → World → Run World
  scan_padding zero addr w = done w
  scan_padding (suc n) addr w =
      let rest = scan_padding n (addr + 1) w in
      elim (read_byte addr w) [
        | none ↦ faulted
        | some b ↦
            if b == poison
            then rest
            else done (write_stderr "coffin: overflow into alignment padding detected at free\n" w)
      ]

  unfoldable pub check_padding : ℕ → Layout → Mode → World → Run World
  check_padding ptr l mode w = do
    g ← region_geometry l mode page
    if g.pad == 0 then done w else scan_padding g.pad (ptr + max l.size 1) w
