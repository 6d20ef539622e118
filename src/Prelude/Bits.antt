-- ===== src/Prelude/Bits.antt =====
-- What `&` does with a mask of low ones, and with a mask of high ones.
use Prim.Native.Nat.{
  ℕ, zero, suc, ◌+◌, ◌-◌, ◌*◌, ◌/◌, ◌%◌, ◌^◌, ◌≤◌, ◌<◌, min, bit_and, digits, bit_and-bitwise,
}
use mathlib.Core.Path.{◌≡◌, refl}
use mathlib.Core.Path.{◌∙◌, ap, sym}
use native.Mathlib.Nat.{
  pow-suc, pow-zero, mul-add-mod_self_left, mod-eq_of_lt, div-add-mod, div-div-eq-div-mul,
  div-lt_iff_lt-mul, mod-one, mul_comm, div-one,
}
use native.Mathlib.Omega.{arith}
use Prim.Native.Nat.add
use coffin.Prelude.Word.{word, complement}

-- The digits of `a` and `b` joined by `min`, lowest first, with fuel.
abbrev joined : ℕ → ℕ → ℕ → ℕ
joined fuel a b = digits (λ _. zero) min fuel a b

-- Fuel beyond `a` changes nothing.
joined_fuel : (n m a b : ℕ) → a ≤ n → a ≤ m → joined n a b ≡ joined m a b
joined_fuel zero zero a b p q = refl
joined_fuel zero (suc m) zero b p q = refl
joined_fuel zero (suc m) (suc a) b p q = absurd (omega arith)
joined_fuel (suc n) zero zero b p q = refl
joined_fuel (suc n) zero (suc a) b p q = absurd (omega arith)
joined_fuel (suc n) (suc m) zero b p q = refl
joined_fuel (suc n) (suc m) (suc a) b p q =
    omega (arith, joined_fuel n m (suc a / 2) (b / 2) (omega arith) (omega arith))

zero-bit_and : (b : ℕ) → bit_and 0 b ≡ 0
zero-bit_and b = bit_and-bitwise 0 b

bit_and-half : (a b : ℕ) → bit_and a b ≡ bit_and (a / 2) (b / 2) * 2 + min (a % 2) (b % 2)
bit_and-half zero b = omega (arith, zero-bit_and b, zero-bit_and (b / 2))
bit_and-half (suc a) b = omega (
  arith,
  bit_and-bitwise (suc a) b,
  bit_and-bitwise (suc a / 2) (b / 2),
  joined_fuel a (suc a / 2) (suc a / 2) (b / 2) (omega arith) (omega arith),
)

bit_and-zero_below : (n a : ℕ) → a ≤ n → bit_and a 0 ≡ 0
bit_and-zero_below n zero h = refl
bit_and-zero_below zero (suc a) h = absurd (omega arith)
bit_and-zero_below (suc n) (suc a) h =
    omega (arith, bit_and-half (suc a) 0, bit_and-zero_below n (suc a / 2) (omega arith))

pub pow-pos : (k : ℕ) → 0 < 2 ^ k
pow-pos zero = omega arith
pow-pos (suc k) = omega (arith, pow-suc 2 k, pow-pos k)

pub pow-add : (a j k : ℕ) → a ^ (j + k) ≡ a ^ j * a ^ k
pow-add a zero k = simp (add.zero, pow-zero) (omega arith)
pow-add a (suc j) k = simp (add.suc, pow-suc, pow-add a j k) (omega arith)

mod-double : (a p : ℕ) → 0 < p → a % (p * 2) ≡ a / 2 % p * 2 + a % 2
mod-double a p h =
    ap (λ t. t % (p * 2)) split
    ∙ mul-add-mod_self_left (p * 2) (a / 2 / p) _
    ∙ mod-eq_of_lt (omega arith)
  where
    split : a ≡ p * 2 * (a / 2 / p) + (a / 2 % p * 2 + a % 2)
    split = omega (arith, div-add-mod (a / 2) p)

-- `x & (2 ^ k - 1)` keeps the low `k` bits.
pub bit_and-low : (a k : ℕ) → bit_and a (2 ^ k - 1) ≡ a % 2 ^ k
bit_and-low a zero = omega (arith, bit_and-zero_below a a (omega arith), mod-one a)
bit_and-low a (suc k) =
    rw
      (
        pow-suc 2 k,
        bit_and-half a (2 ^ k * 2 - 1),
        mod-double a (2 ^ k) (pow-pos k),
        halved,
        ones,
        bit_and-low (a / 2) k,
      )
      (omega arith)
  where
    halved : (2 ^ k * 2 - 1) / 2 ≡ 2 ^ k - 1
    halved = omega (arith, pow-pos k)

    ones : (2 ^ k * 2 - 1) % 2 ≡ 1
    ones = omega (arith, pow-pos k)

-- A mask of `j` ones above `k` zeros keeps the bits that it covers.
bit_and-high : (a j k : ℕ) → bit_and a ((2 ^ j - 1) * 2 ^ k) ≡ a / 2 ^ k % 2 ^ j * 2 ^ k
bit_and-high a j zero = ap (bit_and a) all ∙ bit_and-low a j ∙ whole
  where
    all : (2 ^ j - 1) * 2 ^ 0 ≡ 2 ^ j - 1
    all = omega arith

    whole : a % 2 ^ j ≡ a / 2 ^ 0 % 2 ^ j * 2 ^ 0
    whole = rw (div-one a) (omega arith)
bit_and-high a j (suc k) =
    rw
      (
        pow-suc 2 k,
        bit_and-half a ((2 ^ j - 1) * (2 ^ k * 2)),
        halved,
        even,
        bit_and-high (a / 2) j k,
        div-div-eq-div-mul a 2 (2 ^ k),
      )
      (omega (arith, ap (λ t. a / t % 2 ^ j * 2 ^ k) (mul_comm 2 (2 ^ k))))
  where
    halved : (2 ^ j - 1) * (2 ^ k * 2) / 2 ≡ (2 ^ j - 1) * 2 ^ k
    halved = omega arith

    even : (2 ^ j - 1) * (2 ^ k * 2) % 2 ≡ 0
    even = omega arith

high_ones : (p q : ℕ) → 0 < q → (p + 1) * q ≡ word → complement (q - 1) ≡ p * q
high_ones p q hq e = omega arith

-- `x & !(2 ^ k - 1)` clears the low `k` bits of a word.
pub bit_and-complement :
    (x k : ℕ) → x < word → k ≤ 64 → bit_and x (complement (2 ^ k - 1)) ≡ x / 2 ^ k * 2 ^ k
bit_and-complement x k hx hk =
    ap (bit_and x) mask ∙ bit_and-high x (64 - k) k ∙ ap (λ t. t * 2 ^ k) (mod-eq_of_lt small)
  where
    width : 64 - k + k ≡ 64
    width = omega arith

    split : 2 ^ (64 - k) * 2 ^ k ≡ word
    split = sym (pow-add 2 (64 - k) k) ∙ ap (λ t. 2 ^ t) width

    back : 2 ^ (64 - k) - 1 + 1 ≡ 2 ^ (64 - k)
    back = omega (arith, pow-pos (64 - k))

    mask : complement (2 ^ k - 1) ≡ (2 ^ (64 - k) - 1) * 2 ^ k
    mask = high_ones (2 ^ (64 - k) - 1) (2 ^ k) (pow-pos k) (ap (λ t. t * 2 ^ k) back ∙ split)

    small : x / 2 ^ k < 2 ^ (64 - k)
    small = (div-lt_iff_lt-mul (pow-pos k)).1 (rw split hx)
