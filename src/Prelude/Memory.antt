-- ===== src/Prelude/Memory.antt =====
-- A block of cells as a function of the index, and counts over its first cells.
use Prim.Native.Nat.{ℕ, zero, suc, ◌+◌, ◌≤◌, ◌<◌}
use mathlib.Core.Path.{◌≡◌, refl}
use mathlib.Core.Logic.{◌≢◌}
use mathlib.Core.Bool.{Bool, true, false}
use native.Mathlib.Omega.{arith}
use coffin.Prelude.Tests.{◌==◌, if◌then◌else◌}

-- The block `f` after a store of `v` in cell `i`.
abbrev pub update {ℓ} : {A : Type ℓ} → (ℕ → A) → ℕ → A → ℕ → A
update f i v j = if i == j then v else f j

module _ {ℓ} {A : Type ℓ} (f : ℕ → A) (v : A) where
  pub update_self : {i j : ℕ} → i ≡ j → update f i v j ≡ v
  update_self h = ground arith

  pub update_ne : {i j : ℕ} → i ≢ j → update f i v j ≡ f j
  update_ne h = ground arith

abbrev pub to_nat : Bool → ℕ
to_nat true = 1
to_nat false = 0

-- How many of the first `n` cells pass the test.
unfoldable pub count {ℓ} : {A : Type ℓ} → (A → Bool) → (ℕ → A) → ℕ → ℕ
count p f zero = 0
count p f (suc n) = to_nat (p (f n)) + count p f n

module _ {ℓ} {A : Type ℓ} (p : A → Bool) (f : ℕ → A) where
  pub count-le : (n : ℕ) → count p f n ≤ n
  unfolding count
  count-le zero = omega arith
  count-le (suc n) = ground (arith, count-le n)

  pub count-update_ge : (i : ℕ) (v : A) (n : ℕ) → n ≤ i → count p (update f i v) n ≡ count p f n
  unfolding count
  count-update_ge i v zero h = refl
  count-update_ge i v (suc n) h = ground (arith, count-update_ge i v n)

  -- A store changes the count by what it changes at its cell.
  pub count-update :
      (i : ℕ) (v : A) (n : ℕ)
      → i < n
      → count p (update f i v) n + to_nat (p (f i)) ≡ count p f n + to_nat (p v)
  unfolding count
  count-update i v zero h = absurd (omega arith)
  count-update i v (suc n) h = ground (arith, count-update i v n, count-update_ge i v n)

  pub count-pos : (i n : ℕ) → i < n → p (f i) ≡ true → 0 < count p f n
  unfolding count
  count-pos i zero h e = absurd (omega arith)
  count-pos i (suc n) h e = ground (arith, count-pos i n)

  pub count-eq-zero : (n : ℕ) → ((i : ℕ) → i < n → p (f i) ≡ false) → count p f n ≡ 0
  unfolding count
  count-eq-zero zero h = refl
  count-eq-zero (suc n) h =
      rw (h n (omega arith)) (omega (arith, count-eq-zero n (λ i lt. h i (omega arith))))
