-- ===== src/Region/Bounds.antt =====
-- Where `geometry_for` puts the buffer, the padding and the guard page.
use coffin.Prelude.{
  ℕ, ◌+◌, ◌-◌, ◌*◌, ◌/◌, ◌%◌, ◌^◌, ◌≤◌, ◌<◌, ◌≡◌, ◌↔◌, refl, ap, ◌∙◌, none, some, arith, le→leb,
  word, wrapping_add, wrapping_sub, pow-pos, bit_and, complement, bit_and-complement,
}
use Prim.Native.Nat.{max}
use coffin.Config.{Mode, above, below}
use coffin.Region.{round_up, align_down, Layout, Geometry, place, geometry_for}
use native.Mathlib.Nat.{
  div-add-mod, mod-lt, mul-mod_left, pow-le-pow_right, add-mod_right, add-mod_left, mod_self,
  zero-mod,
}
use mathlib.Core.Path.{subst}
use coffin.Region.Multiples.{mod-pow, sub-mod}

-- `align_down` to a power of two: the greatest multiple below.
pub align_down_lem : (x k : ℕ) → x < word → k ≤ 64 → align_down x (2 ^ k) ≡ x / 2 ^ k * 2 ^ k
unfolding align_down
align_down_lem x k = bit_and-complement x k

pub round_up_lem :
    (x k : ℕ) → x + 2 ^ k ≤ word → k ≤ 64 → round_up x (2 ^ k) ≡ (x + (2 ^ k - 1)) / 2 ^ k * 2 ^ k
unfolding round_up
round_up_lem x k h hk =
    ap (λ t. bit_and t (complement (2 ^ k - 1))) sum
    ∙ bit_and-complement _ k (omega (arith, pow-pos k)) hk
  where
    sum : wrapping_sub (wrapping_add x (2 ^ k)) 1 ≡ x + (2 ^ k - 1)
    sum = omega (arith, pow-pos k)

-- A request that a 64-bit program can make: an alignment 2 ^ a of at most a page of 2 ^ p bytes, and
-- a size of at most half the address space.
pub record IsRequest (l : Layout) (a p : ℕ) : Type 0 where
  pub aligned : l.align ≡ 2 ^ a
  pub within_page : a ≤ p
  pub page_small : p ≤ 32
  pub size_small : l.size < 2 ^ 63

-- The side of the buffer that touches the guard page.
abbrev pub Abuts : Layout → ℕ → Mode → Geometry → Type 0
Abuts l page above g =
    (g.user_off + max l.size 1 + g.pad ≡ g.guard_off)
    × (g.guard_off + page ≡ g.map_len)
    × (g.pad < l.align)
    × ((g.pad ≡ 0) ↔ (max l.size 1 % l.align ≡ 0))
Abuts l page below g = (g.guard_off ≡ 0) × (g.user_off ≡ page) × (g.pad ≡ 0)

-- The buffer is aligned and inside the mapping, off the guard page, and the mapping is as many whole
-- pages as the buffer needs, and one more.
pub record Fences (l : Layout) (page : ℕ) (m : Mode) (g : Geometry) : Type 0 where
  pub user_aligned : g.user_off % l.align ≡ 0
  pub guard_whole : g.guard_off % page ≡ 0
  pub map_whole : g.map_len % page ≡ 0
  pub buffer_inside : g.user_off + max l.size 1 + g.pad ≤ g.map_len
  pub guard_inside : g.guard_off + page ≤ g.map_len
  pub roomy : max l.size 1 + page ≤ g.map_len
  pub tight : g.map_len < max l.size 1 + 2 * page
  pub map_small : g.map_len < 2 ^ 63 + 2 ^ 34
  pub abuts : Abuts l page m g

-- The bytes of whole pages for the buffer.
record IsData (size page data_bytes : ℕ) : Type 0 where
  whole : data_bytes % page ≡ 0
  enough : size ≤ data_bytes
  few : data_bytes < size + page

pow-small : (p : ℕ) → p ≤ 32 → 2 ^ p ≤ 2 ^ 32
pow-small p h = pow-le-pow_right {n = 2} (omega arith) h

round_up-IsData :
    (size p : ℕ) → size < 2 ^ 63 → p ≤ 32 → IsData size (2 ^ p) (round_up size (2 ^ p))
round_up-IsData size p hs hp =
    rw (round_up_lem size p (omega (arith, pow-small p hp)) (omega arith)) (record {
      whole = mul-mod_left _ (2 ^ p);
      enough = omega (arith, split, bound, pow-pos p);
      few = omega (arith, split, pow-pos p);
    })
  where
    split :
        2 ^ p * ((size + (2 ^ p - 1)) / 2 ^ p) + (size + (2 ^ p - 1)) % 2 ^ p ≡ size + (2 ^ p - 1)
    split = div-add-mod (size + (2 ^ p - 1)) (2 ^ p)

    bound : (size + (2 ^ p - 1)) % 2 ^ p < 2 ^ p
    bound = mod-lt (size + (2 ^ p - 1)) (pow-pos p)

module _ (l : Layout) (a p d : ℕ) (r : IsRequest l a p) (t : IsData (max l.size 1) (2 ^ p) d) where
  place-above : Fences l (2 ^ p) above (place (max l.size 1) l.align (2 ^ p) d above)
  unfolding place
  place-above =
      rw (r.aligned, sum, free, off, gap)
        (record {
          user_aligned = mul-mod_left _ (2 ^ a);
          guard_whole = t.whole;
          map_whole = add-mod_right d (2 ^ p) ∙ t.whole;
          buffer_inside = omega (arith, parts, t);
          guard_inside = omega arith;
          roomy = omega (arith, t);
          tight = omega (arith, t);
          map_small = omega (arith, t, small);
          abuts = (
            omega (arith, parts, t),
            refl,
            mod-lt room (pow-pos a),
            (
              λ e. ap (λ s. s % 2 ^ a) (omega (arith, t)) ∙ sub-mod d room (2 ^ a) even e,
              sub-mod d (max l.size 1) (2 ^ a) even,
            ),
          );
        })
    where
      even : d % 2 ^ a ≡ 0
      even = mod-pow d a p r.within_page t.whole

      small : 2 ^ p ≤ 2 ^ 32
      small = pow-small p r.page_small

      room : ℕ
      room = d - max l.size 1

      parts : room / 2 ^ a * 2 ^ a + room % 2 ^ a ≡ room
      parts = omega (arith, div-add-mod room (2 ^ a))

      sum : wrapping_add d (2 ^ p) ≡ d + 2 ^ p
      sum = omega (arith, small, r, t)

      free : wrapping_sub d (max l.size 1) ≡ room
      free = omega (arith, small, r, t)

      off : align_down room (2 ^ a) ≡ room / 2 ^ a * 2 ^ a
      off = align_down_lem room a (omega (arith, small, r, t)) (omega (arith, r))

      gap : wrapping_sub (wrapping_sub d (room / 2 ^ a * 2 ^ a)) (max l.size 1) ≡ room % 2 ^ a
      gap = omega (arith, small, parts, r, t)

  place-below : Fences l (2 ^ p) below (place (max l.size 1) l.align (2 ^ p) d below)
  unfolding place
  place-below =
      rw (r.aligned, sum)
        (record {
          user_aligned = mod-pow (2 ^ p) a p r.within_page (mod_self (2 ^ p));
          guard_whole = zero-mod (2 ^ p);
          map_whole = add-mod_left (2 ^ p) d ∙ t.whole;
          buffer_inside = omega (arith, t);
          guard_inside = omega arith;
          roomy = omega (arith, t);
          tight = omega (arith, t);
          map_small = omega (arith, t, small);
          abuts = (refl, refl, refl);
        })
    where
      small : 2 ^ p ≤ 2 ^ 32
      small = pow-small p r.page_small

      sum : wrapping_add (2 ^ p) d ≡ 2 ^ p + d
      sum = omega (arith, small, r, t)

-- With pages of 2 ^ p bytes, p at most 32, a request of less than 2 ^ 63 bytes, aligned to a power of
-- two of at most a page, gets a geometry in either mode, and it fences the buffer: the buffer is
-- aligned, inside the mapping and off the guard page, the mapping has as few whole pages as that
-- allows, and the buffer with its padding touches the guard page in the above mode and starts behind
-- it in the below mode.
pub geometry_for-Fences :
    (l : Layout) (a p : ℕ) (m : Mode)
    → IsRequest l a p
    → (g : Geometry) × (geometry_for l m (2 ^ p) ≡ some g) × Fences l (2 ^ p) m g
unfolding geometry_for
geometry_for-Fences l a p m r = (_, found, fences m)
  where
    t : IsData (max l.size 1) (2 ^ p) (round_up (max l.size 1) (2 ^ p))
    t = round_up-IsData (max l.size 1) p (omega (arith, r)) r.page_small

    aligned_le : l.align ≤ 2 ^ p
    aligned_le = rw r.aligned (pow-le-pow_right {n = 2} (omega arith) r.within_page)

    found :
        geometry_for l m (2 ^ p)
        ≡ some (place (max l.size 1) l.align (2 ^ p) (round_up (max l.size 1) (2 ^ p)) m)
    found = rw (le→leb _ _ aligned_le)

    fences :
        (m : Mode)
        → Fences l
            (2 ^ p)
            m
            (place (max l.size 1) l.align (2 ^ p) (round_up (max l.size 1) (2 ^ p)) m)
    fences above = place-above l a p _ r t
    fences below = place-below l a p _ r t

pub Fences-of :
    (l : Layout) (a p : ℕ) (m : Mode) (g : Geometry)
    → IsRequest l a p
    → geometry_for l m (2 ^ p) ≡ some g
    → Fences l (2 ^ p) m g
Fences-of l a p m g r geo =
    let (g', e, f) = geometry_for-Fences l a p m r in subst (Fences l (2 ^ p) m) (cc (e, geo)) f

-- `geometry_for` fails exactly for an alignment above the page size.
pub geometry_for-eq-none :
    (l : Layout) (m : Mode) (page : ℕ) → (geometry_for l m page ≡ none) ↔ (page < l.align)
unfolding geometry_for
geometry_for-eq-none l m page = ground arith
