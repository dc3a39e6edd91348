-- ===== src/Event/Json.antt =====
-- encoding/json: integers and strings, as json.Marshal prints them.
use Prim.Native.Char.{Char, code}
use youtube_ar.Base.{ℕ, zero, suc, ◌-◌, ◌/◌, ◌%◌, String, ◌<>◌, ltb, ◌==◌, ◌||◌, if◌then◌else◌}

-- One digit, up to base 16.
abbrev pub digit : ℕ → String
digit zero = "0"
digit (suc zero) = "1"
digit (suc (suc zero)) = "2"
digit (suc (suc (suc zero))) = "3"
digit (suc (suc (suc (suc zero)))) = "4"
digit (suc (suc (suc (suc (suc zero))))) = "5"
digit (suc (suc (suc (suc (suc (suc zero)))))) = "6"
digit (suc (suc (suc (suc (suc (suc (suc zero))))))) = "7"
digit (suc (suc (suc (suc (suc (suc (suc (suc zero)))))))) = "8"
digit (suc (suc (suc (suc (suc (suc (suc (suc (suc zero))))))))) = "9"
digit (suc (suc (suc (suc (suc (suc (suc (suc (suc (suc zero)))))))))) = "a"
digit (suc (suc (suc (suc (suc (suc (suc (suc (suc (suc (suc zero))))))))))) = "b"
digit (suc (suc (suc (suc (suc (suc (suc (suc (suc (suc (suc (suc zero)))))))))))) = "c"
digit (suc (suc (suc (suc (suc (suc (suc (suc (suc (suc (suc (suc (suc zero))))))))))))) = "d"
digit (suc (suc (suc (suc (suc (suc (suc (suc (suc (suc (suc (suc (suc (suc zero)))))))))))))) = "e"
digit n = "f"

-- The decimal digits of a number; the number itself is fuel enough.
unfoldable pub decimal : ℕ → ℕ → String
decimal zero n = digit (n % 10)
decimal (suc fuel) n =
    let high = decimal fuel (n / 10) in if ltb n 10 then digit (n % 10) else high <> digit (n % 10)

-- An int64, given in two's complement.
unfoldable pub itoa : ℕ → String
unfolding decimal
itoa n =
    if ltb n 9223372036854775808
    then decimal n n
    else "-" <> decimal (18446744073709551616 - n) (18446744073709551616 - n)

abbrev pub hex4 : ℕ → String
hex4 n =
    "\\u"
    <> (digit (n / 4096 % 16) <> (digit (n / 256 % 16) <> (digit (n / 16 % 16) <> digit (n % 16))))

-- What stands for one character. `<`, `>`, `&`, U+2028 and U+2029 are escaped for use in HTML.
abbrev pub escape_char : Char → String
escape_char c =
    if code c == 34
    then "\\\""
    else if code c == 92
    then "\\\\"
    else if code c == 10
    then "\\n"
    else if code c == 13
    then "\\r"
    else if code c == 9
    then "\\t"
    else if ltb (code c) 32
        || code c == 60
        || code c == 62
        || code c == 38
        || code c == 8232
        || code c == 8233
    then hex4 (code c)
    else String.◌∷◌ c String.[]

unfoldable pub escape : String → String
escape String.[] = ""
escape (String.◌∷◌ c s) = escape_char c <> escape s

unfoldable pub quote : String → String
unfolding escape
quote s = "\"" <> (escape s <> "\"")
