-- ===== src/Handler/Annotate/Relative.antt =====
-- The path in an annotation.
use coffin.Prelude.{ℕ, ◌≡◌, refl, some, List, [], ◌∷◌, ◌++◌, ==_iff}
use coffin.Config.{strip_prefix}
use coffin.Handler.Annotate.{trim_slashes, relativize}

strip_prefix-append : (c rest : List ℕ) → strip_prefix c (c ++ rest) ≡ some rest
strip_prefix-append [] rest = refl
strip_prefix-append (b ∷ c) rest =
    rw ((==_iff b b).1 refl, strip_prefix) (strip_prefix-append c rest)

-- A path that begins with the bytes of the working directory loses them and all slashes behind them,
-- whether or not the directory's name ends there.
pub relativize-append : (c rest : List ℕ) → relativize (c ++ rest) (some c) ≡ trim_slashes rest
unfolding relativize
relativize-append c rest = rw (strip_prefix-append c rest, relativize)
