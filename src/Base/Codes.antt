-- ===== src/Base/Codes.antt =====
-- Texts as lists of code points, and the functions of Go's package strings that the program calls.
use Prim.Native.Nat.{ℕ}
use Prim.Native.Char.{code}
use Prim.Native.String.{String}
use mathlib.Core.Bool.{Bool, true, false}
use mathlib.Core.Option.{Option, none, some}
use mathlib.Core.List.{List, [], ◌∷◌, ◌++◌, reverse}
use youtube_ar.Base.Tests.{◌==◌, if◌then◌else◌}

-- The code points of a text. `String` has its own `[]` and `∷`.
abbrev pub codes : String → List ℕ
codes String.[] = []
codes (String.◌∷◌ c s) = code c ∷ codes s

-- What follows `prefix` in a text that begins with it.
unfoldable pub strip_prefix : List ℕ → List ℕ → Option (List ℕ)
strip_prefix [] s = some s
strip_prefix (p ∷ ps) [] = none
strip_prefix (p ∷ ps) (c ∷ s) = if p == c then strip_prefix ps s else none

-- What follows the first occurrence of `piece` in a text.
unfoldable pub after : List ℕ → List ℕ → Option (List ℕ)
after piece [] = strip_prefix piece []
after piece (c ∷ s) =
    let later = after piece s in
    elim (strip_prefix piece (c ∷ s)) [ some rest ↦ some rest | none ↦ later ]

-- strings.Contains
unfoldable pub contains_text : List ℕ → List ℕ → Bool
unfolding after strip_prefix
contains_text s piece = elim (after piece s) [ some _ ↦ true | none ↦ false ]

-- strings.HasSuffix
unfoldable pub has_suffix : List ℕ → List ℕ → Bool
unfolding strip_prefix
has_suffix s suffix = elim (strip_prefix (reverse suffix) (reverse s)) [
  | some _ ↦ true
  | none ↦ false
]

-- strings.Join
unfoldable pub join : List ℕ → List (List ℕ) → List ℕ
join separator [] = []
join separator (s ∷ []) = s
join separator (s ∷ t ∷ more) = s ++ (separator ++ join separator (t ∷ more))

-- The parts of a text between its line feeds.
unfoldable pub lines : List ℕ → List (List ℕ)
lines [] = [] ∷ []
lines (c ∷ s) = elim (lines s) [
  | [] ↦ (c ∷ []) ∷ []
  | line ∷ more ↦ if c == 10 then [] ∷ line ∷ more else (c ∷ line) ∷ more
]
