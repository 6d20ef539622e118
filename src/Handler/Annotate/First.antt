-- ===== src/Handler/Annotate/First.antt =====
-- Which place an annotation names.
use coffin.Prelude.{
  ℕ, ◌≡◌, refl, Option, none, some, List, [], ◌∷◌, ◌++◌, arith, Bool-cases, Option-cases, inl, inr,
  ◌==◌, if◌then◌else◌,
}
use coffin.Handler.{Symbol}
use coffin.Handler.Annotate.{user_site, visit, visit_all, walk}

-- All symbols of a stack, in order.
abbrev pub symbols_of : (ℕ → List Symbol) → List ℕ → List Symbol
symbols_of resolve [] = []
symbols_of resolve (ip ∷ ips) =
    if ip == 0 then symbols_of resolve ips else resolve ip ++ symbols_of resolve ips

-- The first of them that is the user's code.
abbrev pub first_site : Option (List ℕ) → List Symbol → Option (List ℕ × ℕ)
first_site cwd [] = none
first_site cwd (sym ∷ syms) = elim (user_site cwd sym) [
  | some site ↦ some site
  | none ↦ first_site cwd syms
]

visit_all-some :
    (cwd : Option (List ℕ)) (site : List ℕ × ℕ) (syms : List Symbol)
    → visit_all cwd (some site) syms ≡ some site
unfolding visit_all visit
visit_all-some cwd site [] = refl
visit_all-some cwd site (sym ∷ syms) = visit_all-some cwd site syms

walk-some :
    (resolve : ℕ → List Symbol) (cwd : Option (List ℕ)) (site : List ℕ × ℕ) (ips : List ℕ)
    → walk resolve cwd (some site) ips ≡ some site
unfolding walk
walk-some resolve cwd site [] = refl
walk-some resolve cwd site (ip ∷ ips) =
    ground (arith, visit_all-some cwd site (resolve ip), walk-some resolve cwd site ips)

visit_all-first_site :
    (cwd : Option (List ℕ)) (syms : List Symbol) → visit_all cwd none syms ≡ first_site cwd syms
unfolding visit_all visit
visit_all-first_site cwd [] = refl
visit_all-first_site cwd (sym ∷ syms) = elim (Option-cases (user_site cwd sym)) [
  | inl e ↦ rw (e, first_site) (visit_all-first_site cwd syms)
  | inr (site, e) ↦ rw (e, first_site) (visit_all-some cwd site syms)
]

-- The first site of two lists of symbols is the first list's, or else the second's.
first_site-append :
    (cwd : Option (List ℕ)) (xs ys : List Symbol)
    → first_site cwd (xs ++ ys)
      ≡ elim (first_site cwd xs) [ some site ↦ some site | none ↦ first_site cwd ys ]
first_site-append cwd [] ys = refl
first_site-append cwd (sym ∷ xs) ys = elim (Option-cases (user_site cwd sym)) [
  | inl e ↦ rw (e, first_site) (first_site-append cwd xs ys)
  | inr (site, e) ↦ rw (e, first_site) refl
]

-- The frames left over, behind what the frames before them gave.
walk-rest :
    (resolve : ℕ → List Symbol) (cwd : Option (List ℕ)) (ips : List ℕ) (found : Option (List ℕ × ℕ))
    → walk resolve cwd none ips ≡ first_site cwd (symbols_of resolve ips)
    → walk resolve cwd found ips
      ≡ elim found [ some site ↦ some site | none ↦ first_site cwd (symbols_of resolve ips) ]
walk-rest resolve cwd ips none e = e
walk-rest resolve cwd ips (some site) e = walk-some resolve cwd site ips

-- The loop of `emit_site`, begun with nothing emitted, ends with the first place in the stack that is
-- the user's code, the frames and the symbols of a frame taken in order and frames of address 0
-- skipped; it ends with none if there is no such place.
pub walk-first_site :
    (resolve : ℕ → List Symbol) (cwd : Option (List ℕ)) (ips : List ℕ)
    → walk resolve cwd none ips ≡ first_site cwd (symbols_of resolve ips)
unfolding walk
walk-first_site resolve cwd [] = refl
walk-first_site resolve cwd (ip ∷ ips) = elim (Bool-cases (ip == 0)) [
  | inl z ↦ rw (z, symbols_of) (walk-first_site resolve cwd ips)
  | inr nz ↦
      rw (nz, symbols_of, visit_all-first_site, first_site-append)
        (walk-rest resolve cwd ips _ (walk-first_site resolve cwd ips))
]
