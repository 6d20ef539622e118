-- ===== src/Handler/Annotate/Tests.antt =====
-- Places in a stack of two frames.
use coffin.Prelude.{ℕ, ◌≡◌, none, some, List, [], ◌∷◌, ◌++◌, ◌==◌, if◌then◌else◌}
use coffin.Handler.{Symbol}
use coffin.Handler.Annotate.{relativize, is_internal_frame, user_site, walk}
use coffin.Handler.Annotate.First.{walk-first_site}
use coffin.Handler.Annotate.Relative.{relativize-append}

-- `/w`, `/w/a.rs` and `/w-b/a.rs`
abbrev cwd : List ℕ
cwd = b'/' ∷ b'w' ∷ []

abbrev inside : List ℕ
inside = b'/' ∷ b'a' ∷ b'.' ∷ b'r' ∷ b's' ∷ []

abbrev beside : List ℕ
beside = b'-' ∷ b'b' ∷ b'/' ∷ b'a' ∷ b'.' ∷ b'r' ∷ b's' ∷ []

-- The inner frame is the allocator's own, the outer one is the user's.
abbrev resolve : ℕ → List Symbol
resolve ip =
    if ip == 0x1111
    then record {
      display = none;
      name = some (b'c' ∷ b'o' ∷ b'f' ∷ b'f' ∷ b'i' ∷ b'n' ∷ []);
      filename = some inside;
      lineno = some 1;
    }
      ∷ []
    else record { display = none; name = none; filename = some (cwd ++ inside); lineno = some 7 }
      ∷ []

walk-first_site_example :
    walk resolve (some cwd) none (0x1111 ∷ 0x2222 ∷ 0 ∷ [])
    ≡ some (b'a' ∷ b'.' ∷ b'r' ∷ b's' ∷ [], 7)
unfolding user_site is_internal_frame relativize
walk-first_site_example = walk-first_site resolve (some cwd) (0x1111 ∷ 0x2222 ∷ 0 ∷ [])

-- The directory's name does not end at the end of the prefix.
relativize-append_test : relativize (cwd ++ beside) (some cwd) ≡ beside
relativize-append_test = relativize-append cwd beside
