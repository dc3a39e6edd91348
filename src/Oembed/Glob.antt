-- ===== src/Oembed/Glob.antt =====
-- filepath.Match on a system whose separator is a slash: `*` and `?` match no slash, a backslash takes
-- the next character literally, and a class in brackets matches a character by its ranges. A pattern
-- that is malformed is refused before it is matched.
use youtube_ar.Base.{
  ℕ, List, [], ◌∷◌, Option, none, some, Bool, true, false, ◌==◌, ◌&&◌, ◌||◌, leb, not,
  if◌then◌else◌,
}

-- The ranges of a class, by their first and last characters.
abbrev pub Ranges : Type 0
Ranges = List (ℕ × ℕ)

pub data Token : Type 0 where
  char : ℕ → Token
  any star : Token
  class : (negated : Bool) → Ranges → Token

-- Where in a pattern the next character stands: outside of a class, after a backslash, after a bracket,
-- at the begin of a range, after its first character, or after its dash; in the last three also after
-- a backslash. No character mends a malformed pattern.
pub data Mode : Type 0 where
  plain escaped opened malformed : Mode
  low low_escaped : Bool → Ranges → Mode
  dash high high_escaped : Bool → Ranges → ℕ → Mode

abbrev is_bracket : Ranges → ℕ → Bool
is_bracket [] c = false
is_bracket (_ ∷ _) c = c == 93

-- A range begins, or the class ends.
abbrev begin : Bool → Ranges → ℕ → Mode
begin negated ranges c =
    if is_bracket ranges c
    then plain
    else if c == 93 || c == 45
    then malformed
    else if c == 92
    then low_escaped negated ranges
    else dash negated ranges c

abbrev next_mode : Mode → ℕ → Mode
next_mode plain c = if c == 92 then escaped else if c == 91 then opened else plain
next_mode escaped c = plain
next_mode opened c = if c == 94 then low true [] else begin false [] c
next_mode malformed c = malformed
next_mode (low negated ranges) c = begin negated ranges c
next_mode (low_escaped negated ranges) c = dash negated ranges c
next_mode (dash negated ranges first) c =
    if c == 45 then high negated ranges first else begin negated ((first, first) ∷ ranges) c
next_mode (high negated ranges first) c =
    if c == 93 || c == 45
    then malformed
    else if c == 92
    then high_escaped negated ranges first
    else low negated ((first, c) ∷ ranges)
next_mode (high_escaped negated ranges first) c = low negated ((first, c) ∷ ranges)

abbrev class_end : Bool → Ranges → ℕ → Option Token
class_end negated ranges c = if is_bracket ranges c then some (class negated ranges) else none

-- The token that ends at a character.
abbrev token_at : Mode → ℕ → Option Token
token_at plain c =
    if c == 92 || c == 91
    then none
    else some (if c == 42 then star else if c == 63 then any else char c)
token_at escaped c = some (char c)
token_at (low negated ranges) c = class_end negated ranges c
token_at (dash negated ranges first) c = class_end negated ((first, first) ∷ ranges) c
token_at _ c = none

abbrev cons_token : Option Token → Option (List Token) → Option (List Token)
cons_token t none = none
cons_token none (some ts) = some ts
cons_token (some t) (some ts) = some (t ∷ ts)

-- The tokens of a pattern; `none` is ErrBadPattern.
unfoldable pub tokens_from : Mode → List ℕ → Option (List Token)
tokens_from plain [] = some []
tokens_from _ [] = none
tokens_from mode (c ∷ s) = cons_token (token_at mode c) (tokens_from (next_mode mode c) s)

abbrev in_ranges : ℕ → Ranges → Bool
in_ranges c [] = false
in_ranges c ((first, last) ∷ ranges) = (leb first c && leb c last) || in_ranges c ranges

abbrev in_class : Bool → Ranges → ℕ → Bool
in_class negated ranges c = if negated then not (in_ranges c ranges) else in_ranges c ranges

abbrev pub is_slash : ℕ → Bool
is_slash c = c == 47

unfoldable pub matches : List Token → List ℕ → Bool
matches [] [] = true
matches [] (c ∷ s) = false
matches (char a ∷ ts) [] = false
matches (char a ∷ ts) (c ∷ s) = elim (a == c) [ true ↦ matches ts s | false ↦ false ]
matches (any ∷ ts) [] = false
matches (any ∷ ts) (c ∷ s) = elim (is_slash c) [ true ↦ false | false ↦ matches ts s ]
matches (class negated ranges ∷ ts) [] = false
matches (class negated ranges ∷ ts) (c ∷ s) = elim (in_class negated ranges c) [
  | true ↦ matches ts s
  | false ↦ false
]
matches (star ∷ ts) [] = matches ts []
matches (star ∷ ts) (c ∷ s) = elim (matches ts (c ∷ s)) [
  | true ↦ true
  | false ↦ elim (is_slash c) [ true ↦ false | false ↦ matches (star ∷ ts) s ]
]

unfoldable pub match : (pattern name : List ℕ) → Option Bool
unfolding tokens_from matches
match pattern name = elim (tokens_from plain pattern) [
  | none ↦ none
  | some ts ↦ some (matches ts name)
]
