-- ===== src/Registry/Hash.antt =====
-- What the hash makes of the bits of a pointer.
use coffin.Prelude.{
  ℕ, ◌+◌, ◌-◌, ◌*◌, ◌/◌, ◌%◌, ◌^◌, ◌≤◌, ◌≡◌, ◌↔◌, sym, ap, ◌∙◌, arith, word, pow-add,
}
use native.Mathlib.Nat.{add-mul-mod_self_left, add-mul-mod_self_right, div-add-mod}
use coffin.Registry.{hash, home}
use coffin.Registry.Probe.{IsTable, home-mod}

abbrev multiplier : ℕ
multiplier = 0x9E37_79B9_7F4A_7C15

-- The inverse of the multiplier modulo 2 ^ 64.
abbrev inverse : ℕ
inverse = 0xF1DE_83E1_9937_733D

-- A factor may be reduced first.
mod-mul-mod : (a c m : ℕ) → a % m * c % m ≡ a * c % m
mod-mul-mod a c m = sym (add-mul-mod_self_left (a % m * c) m (a / m * c)) ∙ ap (λ t. t % m) whole
  where
    whole : a % m * c + m * (a / m * c) ≡ a * c
    whole = omega (arith, ap (λ t. t * c) (div-add-mod a m))

-- The low bits of a word that wrapped are those of the number.
mod-word-mod : (x k : ℕ) → k ≤ 64 → x % word % 2 ^ k ≡ x % 2 ^ k
mod-word-mod x k h =
    sym (add-mul-mod_self_right (x % word) (x / word * 2 ^ (64 - k)) (2 ^ k))
    ∙ ap (λ t. t % 2 ^ k) whole
  where
    width : 64 - k + k ≡ 64
    width = omega arith

    split : 2 ^ (64 - k) * 2 ^ k ≡ word
    split = sym (pow-add 2 (64 - k) k) ∙ ap (λ t. 2 ^ t) width

    whole : x % word + x / word * 2 ^ (64 - k) * 2 ^ k ≡ x
    whole = omega (arith, div-add-mod x word, ap (λ t. x / word * t) split)

module _ {k cap mask : ℕ} (t : IsTable k cap mask) where
  -- The first slot of a probe is the pointer's low bits times the multiplier.
  home_low : (ptr : ℕ) → home mask ptr ≡ ptr * multiplier % cap
  unfolding hash
  home_low ptr =
      home-mod t ptr ∙ rw t.cap_pow (mod-word-mod (ptr * multiplier) k (omega (arith, t)))

  -- The multiplier can be undone, so the first slot tells the pointer's low bits.
  home_undone : (ptr : ℕ) → home mask ptr * inverse % cap ≡ ptr % cap
  home_undone ptr =
      ap (λ s. s * inverse % cap) (home_low ptr)
      ∙ mod-mul-mod (ptr * multiplier) inverse cap
      ∙ ap (λ s. s % cap) whole
      ∙ add-mul-mod_self_right ptr (ptr * carry * 2 ^ (64 - k)) cap
    where
      carry : ℕ
      carry = 10771413168148108919

      width : 64 - k + k ≡ 64
      width = omega (arith, t)

      split : 2 ^ (64 - k) * cap ≡ word
      split = rw t.cap_pow (sym (pow-add 2 (64 - k) k) ∙ ap (λ e. 2 ^ e) width)

      whole : ptr * multiplier * inverse ≡ ptr + ptr * carry * 2 ^ (64 - k) * cap
      whole = omega (arith, ap (λ s. ptr * carry * s) split)

  -- In a table of 2 ^ k slots, k at most 63, the probes of two pointers start at the same slot exactly
  -- if the pointers agree modulo the number of slots.
  pub home-eq_iff : (p q : ℕ) → (home mask p ≡ home mask q) ↔ (p % cap ≡ q % cap)
  home-eq_iff p q = (
    λ e. sym (home_undone p) ∙ ap (λ s. s * inverse % cap) e ∙ home_undone q,
    λ e.
        home_low p
        ∙ sym (mod-mul-mod p multiplier cap)
        ∙ ap (λ s. s * multiplier % cap) e
        ∙ mod-mul-mod q multiplier cap
        ∙ sym (home_low q),
  )

  -- In a table of at most 2 ^ p slots, the probes of two pointers with the same offset in their pages
  -- of 2 ^ p bytes start at the same slot.
  pub home_same_offset :
      (p m n off : ℕ) → k ≤ p → home mask (m * 2 ^ p + off) ≡ home mask (n * 2 ^ p + off)
  home_same_offset p m n off h = (home-eq_iff _ _).1 (reduce m ∙ sym (reduce n))
    where
      width : p - k + k ≡ p
      width = omega arith

      split : 2 ^ (p - k) * cap ≡ 2 ^ p
      split = rw t.cap_pow (sym (pow-add 2 (p - k) k) ∙ ap (λ e. 2 ^ e) width)

      reduce : (m : ℕ) → (m * 2 ^ p + off) % cap ≡ off % cap
      reduce m = ap (λ s. s % cap) whole ∙ add-mul-mod_self_right off (m * 2 ^ (p - k)) cap
        where
          whole : m * 2 ^ p + off ≡ off + m * 2 ^ (p - k) * cap
          whole = omega (arith, ap (λ s. m * s) split)
