-- ===== src/Region/Multiples.antt =====
-- Multiples of a page and of an alignment, which are powers of two.
use coffin.Prelude.{ℕ, ◌+◌, ◌-◌, ◌*◌, ◌/◌, ◌%◌, ◌^◌, ◌≤◌, ◌≡◌, ap, ◌∙◌, arith, pow-add}
use native.Mathlib.Nat.{div-add-mod, mul-mod_left, mul-mod_right, mul-sub, mul-add}

-- A multiple of a power of two is a multiple of every smaller one.
pow-mod-pow : (q a p : ℕ) → a ≤ p → q * 2 ^ p % 2 ^ a ≡ 0
pow-mod-pow q a p h = ap (λ t. t % 2 ^ a) split ∙ mul-mod_left (q * 2 ^ (p - a)) (2 ^ a)
  where
    width : p - a + a ≡ p
    width = omega arith

    split : q * 2 ^ p ≡ q * 2 ^ (p - a) * 2 ^ a
    split = omega (arith, ap (λ t. q * 2 ^ t) width, ap (λ t. q * t) (pow-add 2 (p - a) a))

pub mod-pow : (d a p : ℕ) → a ≤ p → d % 2 ^ p ≡ 0 → d % 2 ^ a ≡ 0
mod-pow d a p h e = ap (λ t. t % 2 ^ a) split ∙ pow-mod-pow (d / 2 ^ p) a p h
  where
    split : d ≡ d / 2 ^ p * 2 ^ p
    split = omega (arith, div-add-mod d (2 ^ p))

pub sum-mod : (m n k : ℕ) → m % k ≡ 0 → n % k ≡ 0 → (m + n) % k ≡ 0
sum-mod m n k hm hn = ap (λ t. t % k) split ∙ mul-mod_right k (m / k + n / k)
  where
    split : m + n ≡ k * (m / k + n / k)
    split = omega (arith, div-add-mod m k, div-add-mod n k, mul-add k (m / k) (n / k))

pub sub-mod : (m n k : ℕ) → m % k ≡ 0 → n % k ≡ 0 → (m - n) % k ≡ 0
sub-mod m n k hm hn = ap (λ t. t % k) split ∙ mul-mod_right k (m / k - n / k)
  where
    split : m - n ≡ k * (m / k - n / k)
    split = omega (arith, div-add-mod m k, div-add-mod n k, mul-sub k (m / k) (n / k))
