-- ===== src/Handler/Annotate.antt =====
-- src/handler.rs, the annotations for GitHub: which source line a fault is pinned to. A line on stdout
-- is a value of `Annotation`; texts are lists of bytes.
pub mod First
pub mod Relative
pub mod Tests
use Prim.Native.String.{String}
use coffin.Prelude.{
  ℕ, Bool, true, false, ◌&&◌, ◌||◌, Option, none, some, List, [], ◌∷◌, ◌++◌, if◌then◌else◌, ◌==◌,
}
use coffin.Config.{strip_prefix}
use coffin.Registry.{Arena}
use coffin.Fault.{
  FaultKind, overflow, underflow, use_after_free, live_region, wild, FaultInfo, read_ips,
}
use coffin.Handler.{Symbol, is_use_after_free, is_wild}

-- `str::contains`
abbrev pub contains : List ℕ → List ℕ → Bool
contains needle [] = elim needle [ [] ↦ true | _ ∷ _ ↦ false ]
contains needle (b ∷ bs) = elim (strip_prefix needle (b ∷ bs)) [
  | some _ ↦ true
  | none ↦ contains needle bs
]

-- `trim_start_matches('/')`
abbrev pub trim_slashes : List ℕ → List ℕ
trim_slashes [] = []
trim_slashes (b ∷ bs) = if b == b'/' then trim_slashes bs else b ∷ bs

unfoldable pub relativize : List ℕ → Option (List ℕ) → List ℕ
relativize path none = path
relativize path (some c) = elim (strip_prefix c path) [
  | some rest ↦ trim_slashes rest
  | none ↦ path
]

unfoldable pub is_internal_frame : List ℕ → Symbol → Bool
is_internal_frame path sym =
    if contains rustc path || (contains cargo path || contains registry path)
    then true
    else elim sym.name [
      | some name ↦ contains coffin_name name || (contains backtrace name || contains rust name)
      | none ↦ false
    ]
  where
    rustc : List ℕ
    rustc = b'/' ∷ b'r' ∷ b'u' ∷ b's' ∷ b't' ∷ b'c' ∷ b'/' ∷ []

    cargo : List ℕ
    cargo = b'/' ∷ b'.' ∷ b'c' ∷ b'a' ∷ b'r' ∷ b'g' ∷ b'o' ∷ b'/' ∷ []

    registry : List ℕ
    registry = b'/' ∷ b'r' ∷ b'e' ∷ b'g' ∷ b'i' ∷ b's' ∷ b't' ∷ b'r' ∷ b'y' ∷ b'/' ∷ []

    coffin_name : List ℕ
    coffin_name = b'c' ∷ b'o' ∷ b'f' ∷ b'f' ∷ b'i' ∷ b'n' ∷ []

    backtrace : List ℕ
    backtrace = b'b' ∷ b'a' ∷ b'c' ∷ b'k' ∷ b't' ∷ b'r' ∷ b'a' ∷ b'c' ∷ b'e' ∷ []

    rust : List ℕ
    rust = b'_' ∷ b'_' ∷ b'r' ∷ b'u' ∷ b's' ∷ b't' ∷ []

-- A file and a line, if the symbol has both and is the user's code.
unfoldable pub user_site : Option (List ℕ) → Symbol → Option (List ℕ × ℕ)
user_site cwd sym = elim sym.filename [
  | none ↦ none
  | some file ↦ elim sym.lineno [
    | none ↦ none
    | some line ↦ if is_internal_frame file sym then none else some (relativize file cwd, line)
  ]
]

-- The closure that `resolve` calls for a symbol, on what was emitted so far.
unfoldable pub visit : Option (List ℕ) → Option (List ℕ × ℕ) → Symbol → Option (List ℕ × ℕ)
visit cwd (some site) sym = some site
visit cwd none sym = user_site cwd sym

unfoldable pub visit_all : Option (List ℕ) → Option (List ℕ × ℕ) → List Symbol → Option (List ℕ × ℕ)
visit_all cwd emitted [] = emitted
visit_all cwd emitted (sym ∷ syms) = visit_all cwd (visit cwd emitted sym) syms

abbrev pub is_some {ℓ} : {A : Type ℓ} → Option A → Bool
is_some none = false
is_some (some a) = true

-- A line on stdout.
pub data Annotation : Type 0 where
  located : List ℕ → ℕ → String → String → ℕ → Annotation
  unlocated : String → ℕ → Annotation

abbrev pub kind_label : FaultKind → String
kind_label overflow = "BUFFER OVERFLOW"
kind_label underflow = "BUFFER UNDERFLOW"
kind_label use_after_free = "USE-AFTER-FREE"
kind_label live_region = "FAULT IN LIVE REGION"
kind_label wild = "WILD POINTER"

-- `resolve`: the symbols of an instruction pointer, for the `backtrace` crate to say.
module _ (resolve : ℕ → List Symbol) (cwd : Option (List ℕ)) where
  -- The loop of `emit_site` over the frames.
  unfoldable pub walk : Option (List ℕ × ℕ) → List ℕ → Option (List ℕ × ℕ)
  walk emitted [] = emitted
  walk emitted (ip ∷ ips) =
      walk (if ip == 0 || is_some emitted then emitted else visit_all cwd emitted (resolve ip)) ips

  unfoldable pub emit_site : Arena → ℕ → Bool → String → String → ℕ → List Annotation
  emit_site a slot free label site addr = elim (walk none (read_ips a slot free)) [
    | some (file, line) ↦ located file line label site addr ∷ []
    | none ↦ []
  ]

  -- The line without a place, if nothing was emitted.
  abbrev pub or_unlocated : List Annotation → String → ℕ → List Annotation
  or_unlocated [] label addr = unlocated label addr ∷ []
  or_unlocated (n ∷ ns) label addr = n ∷ ns

  unfoldable pub emit_annotations : Option (Arena × FaultInfo) → ℕ → List Annotation
  emit_annotations none addr = unlocated "WILD POINTER" addr ∷ []
  emit_annotations (some (a, fi)) addr =
      let label = kind_label fi.kind in
      or_unlocated
        (if is_wild fi.kind
          then []
          else (emit_site a fi.slot false label "allocated" addr
              ++ (if is_use_after_free fi.kind
                  then emit_site a fi.slot true label "freed" addr
                  else [])))
        label addr
