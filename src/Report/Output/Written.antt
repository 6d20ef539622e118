-- ===== src/Report/Output/Written.antt =====
-- What the loop writes.
use coffin.Prelude.{
  ℕ, zero, suc, ◌+◌, ◌-◌, ◌≢◌, ◌≤◌, ◌<◌, ◌≡◌, refl, sym, ap, ◌∙◌, Option, none, some, List, [], ◌∷◌,
  ◌++◌, inl, inr, length, length-append, take, drop, arith, lt→ltb, ltb-false, Option-cases,
}
use native.Mathlib.Nat.{zero-add, suc-add}
use native.Mathlib.Decide.{dec_lt}
use mathlib.Core.List.{append-nil, append_assoc}
use coffin.Report.Output.{write_part, raw_write_fd}

drop-add : (m n : ℕ) (p : List ℕ) → drop (m + n) p ≡ drop n (drop m p)
drop-add zero n p = rw zero-add refl
drop-add (suc m) n [] = rw suc-add (nothing n)
  where
    nothing : (n : ℕ) → drop {A = ℕ} (suc (m + n)) [] ≡ drop n []
    nothing zero = refl
    nothing (suc n) = refl
drop-add (suc m) n (x ∷ p) = rw suc-add (drop-add m n p)

take-add : (m n : ℕ) (p : List ℕ) → take (m + n) p ≡ take m p ++ take n (drop m p)
take-add zero n p = rw zero-add refl
take-add (suc m) zero [] = rw suc-add refl
take-add (suc m) (suc n) [] = rw suc-add refl
take-add (suc m) n (x ∷ p) = rw suc-add (ap (λ q. x ∷ q) (take-add m n p))

take-all : (m : ℕ) (p : List ℕ) → length p ≤ m → take m p ≡ p
take-all zero [] h = refl
take-all zero (x ∷ p) h = absurd (omega arith)
take-all (suc m) [] h = refl
take-all (suc m) (x ∷ p) h = ap (λ q. x ∷ q) (take-all m p (omega arith))

length-drop : (m : ℕ) (p : List ℕ) → length (drop m p) ≡ length p - m
length-drop zero p = omega arith
length-drop (suc m) [] = omega arith
length-drop (suc m) (x ∷ p) = omega (arith, length-drop m p)

-- Some of the first bytes of each slice, in the order of the slices.
abbrev pub IsCut : List (List ℕ) → List ℕ → Type 0
IsCut [] bytes = bytes ≡ []
IsCut (p ∷ ps) bytes = (m : ℕ) × (rest : List ℕ) × (bytes ≡ take m p ++ rest) × IsCut ps rest

-- All bytes of all slices.
abbrev pub concat : List (List ℕ) → List ℕ
concat [] = []
concat (p ∷ ps) = p ++ concat ps

-- What `write` is documented to do: the bytes taken are some of the first, at least one, and they go
-- behind what the descriptor already has; on a failure it gets none.
pub record IsWrite {World : Type 0} (write : ℕ → List ℕ → World → Option ℕ × World) (fd : ℕ)
    : Type 0 where
  pub output : World → List ℕ
  pub some_bytes :
      (bytes : List ℕ) (w : World) (n : ℕ)
      → 0 < length bytes
      → (write fd bytes w).0 ≡ some n
      → (0 < n) × (n ≤ length bytes)
  pub appended :
      (bytes : List ℕ) (w : World) (n : ℕ)
      → (write fd bytes w).0 ≡ some n
      → output (write fd bytes w).1 ≡ output w ++ take n bytes
  pub refused :
      (bytes : List ℕ) (w : World)
      → (write fd bytes w).0 ≡ none
      → output (write fd bytes w).1 ≡ output w

-- `write` on worlds that keep the number of calls made.
unfoldable pub counted :
    {World : Type 0}
    → (ℕ → List ℕ → World → Option ℕ × World)
    → ℕ
    → List ℕ
    → World × ℕ
    → Option ℕ × (World × ℕ)
counted write fd bytes (w, calls) = let (taken, w') = write fd bytes w in (taken, (w', suc calls))

module _ {World : Type 0} {write : ℕ → List ℕ → World → Option ℕ × World} {fd : ℕ}
    (sys : IsWrite write fd) where
  open sys use {output}

  -- Of a slice the loop writes some of the first bytes; all of them, unless a call of `write` fails. It
  -- makes at most one call for each byte.
  write_part-writes :
      (n off : ℕ) (p : List ℕ) (w : World) (calls : ℕ)
      → length p < n + off
      → off ≤ length p
      → (w' : World) × (m c : ℕ) × (write_part write n fd p off w ≡ some w')
        × (write_part (counted write) n fd p off (w, calls) ≡ some (w', calls + c))
        × (off + c ≤ length p)
        × (off + m ≤ length p)
        × (output w' ≡ output w ++ take m (drop off p))
        × (((bytes : List ℕ) (v : World) → 0 < length bytes → (write fd bytes v).0 ≢ none)
            → off + m ≡ length p)
  unfolding write_part counted
  write_part-writes zero off p w calls h le = absurd (omega arith)
  write_part-writes (suc n) off p w calls h le = elim (dec_lt off (length p)) [
    | no ge ↦ (
      w,
      0,
      0,
      rw (ltb-false off (length p) (omega arith)) refl,
      rw (ltb-false off (length p) (omega arith)) (ap (λ c. some (w, c)) (omega arith)),
      omega arith,
      omega arith,
      sym (append-nil _),
      λ _. omega arith,
    )
    | yes lt ↦ elim (Option-cases (write fd (drop off p) w).0) [
      | inl e ↦ (
        (write fd (drop off p) w).1,
        0,
        1,
        rw (lt→ltb off (length p) lt, e) refl,
        rw (lt→ltb off (length p) lt, e)
            (ap (λ c. some ((write fd (drop off p) w).1, c)) (omega arith)),
        omega arith,
        omega arith,
        sys.refused (drop off p) w e ∙ sym (append-nil _),
        λ ok. absurd (ok (drop off p) w (omega (arith, length-drop off p)) e),
      )
      | inr (k, e) ↦
          let bytes = sys.some_bytes (drop off p) w k (omega (arith, length-drop off p)) e in
          let (w', m, c, ran, count, few, fits, out, all) =
            write_part-writes n (off + k) p (write fd (drop off p) w).1 (suc calls)
              (omega (arith, bytes)) (omega (arith, bytes, length-drop off p)) in
          (
            w',
            k + m,
            suc c,
            rw (lt→ltb off (length p) lt, e) ran,
            rw (lt→ltb off (length p) lt, e) (count ∙ ap (λ c. some (w', c)) (omega arith)),
            omega (arith, bytes),
            omega arith,
            out
                ∙ rw (sys.appended (drop off p) w k e, drop-add off k p, take-add k m (drop off p))
                    (append_assoc (output w) (take k (drop off p)) (take m (drop k (drop off p)))),
            λ ok. omega (arith, all ok),
          )
    ]
  ]

  -- Where `write` does as documented, `raw_write_fd` comes to an end, also when the calls are counted,
  -- and then it has made at most one call for each byte of the slices; and the descriptor has got some
  -- of the first bytes of each slice, in the order of the slices.
  pub raw_write_fd-writes :
      (parts : List (List ℕ)) (w : World) (calls : ℕ)
      → (w' : World) × (bytes : List ℕ) × (c : ℕ) × (raw_write_fd write fd parts w ≡ some w')
        × (raw_write_fd (counted write) fd parts (w, calls) ≡ some (w', calls + c))
        × (c ≤ length (concat parts))
        × (output w' ≡ output w ++ bytes)
        × IsCut parts bytes
  unfolding raw_write_fd
  raw_write_fd-writes [] w calls =
      (w, [], 0, refl, ap (λ c. some (w, c)) (omega arith), omega arith, sym (append-nil _), refl)
  raw_write_fd-writes (p ∷ ps) w calls =
      let (u, m, c, ran, count, few, _, out, _) =
        write_part-writes (suc (length p)) 0 p w calls (omega arith) (omega arith) in
      let (w', bytes, c', ran', count', few', out', cut) = raw_write_fd-writes ps u (calls + c) in
      (
        w',
        take m p ++ bytes,
        c + c',
        rw (ran, raw_write_fd) ran',
        rw (count, raw_write_fd) (count' ∙ ap (λ c. some (w', c)) (omega arith)),
        omega (arith, length-append p (concat ps)),
        out' ∙ rw out (append_assoc (output w) (take m p) bytes),
        (m, bytes, refl, cut),
      )

  -- Where no call of `write` fails, the descriptor gets all bytes of all slices in their order.
  pub raw_write_fd-all :
      (parts : List (List ℕ)) (w : World)
      → ((bytes : List ℕ) (v : World) → 0 < length bytes → (write fd bytes v).0 ≢ none)
      → (w' : World) × (raw_write_fd write fd parts w ≡ some w')
        × (output w' ≡ output w ++ concat parts)
  unfolding raw_write_fd
  raw_write_fd-all [] w ok = (w, refl, sym (append-nil _))
  raw_write_fd-all (p ∷ ps) w ok =
      let (u, m, _, ran, _, _, _, out, all) =
        write_part-writes (suc (length p)) 0 p w 0 (omega arith) (omega arith) in
      let (w', ran', out') = raw_write_fd-all ps u ok in
      (
        w',
        rw (ran, raw_write_fd) ran',
        out'
            ∙ rw (out, take-all m p (omega (arith, all ok)))
                (append_assoc (output w) p (concat ps)),
      )
