-- ===== src/Server/Number.antt =====
-- strconv.ParseInt(s, 0, 0) of a text of digits: base 8 after a leading zero, else base 10, and an
-- error above the greatest int64.
pub mod Printed
pub mod Octal
use youtube_ar.Base.{ℕ, ◌+◌, ◌-◌, ◌*◌, List, [], ◌∷◌, Option, none, some, ltb, ◌==◌, if◌then◌else◌}

-- The value of digits in a base, on top of the value of those before; `none` is a digit that the base
-- lacks.
unfoldable pub digits_value : ℕ → ℕ → List ℕ → Option ℕ
digits_value base n [] = some n
digits_value base n (c ∷ s) =
    let more = digits_value base (n * base + (c - 48)) s in if ltb (c - 48) base then more else none

abbrev in_range : Option ℕ → Option ℕ
in_range none = none
in_range (some n) = if ltb n 9223372036854775808 then some n else none

unfoldable pub parse_int : List ℕ → Option ℕ
unfolding digits_value
parse_int [] = none
parse_int (c ∷ []) = in_range (digits_value 10 0 (c ∷ []))
parse_int (c ∷ d ∷ s) =
    if c == 48
    then in_range (digits_value 8 0 (d ∷ s))
    else in_range (digits_value 10 0 (c ∷ d ∷ s))
