-- ===== src/Server/Number/Octal.antt =====
-- An id with a zero before it is read in base 8.
use youtube_ar.Base.{
  ℕ, ◌+◌, ◌-◌, ◌*◌, ◌≤◌, ◌<◌, List, [], ◌∷◌, Option, some, codes, ltb, ◌==◌, ◌≡◌, ◌≢◌, refl, sym,
  ap, ◌∙◌, arith, inl, inr, ◌⊎◌, true, false, All,
}
use youtube_ar.Event.Json.{itoa}
use youtube_ar.Server.Number.{digits_value, in_range, parse_int}
use youtube_ar.Server.Number.Printed.{decimal-value, decimal-first, decimal-IsDigits, digits_of}
use youtube_ar.Server.Routes.{is_digit}

-- The same digits are less in base 8, on top of less.
base-lt :
    (s : List ℕ) (a b x y : ℕ)
    → a < b
    → digits_value 8 a s ≡ some x
    → digits_value 10 b s ≡ some y
    → x < y
unfolding digits_value
base-lt [] a b x y h p q = ground arith
base-lt (c ∷ s) a b x y h p q = ground (arith, base-lt s (a * 8 + (c - 48)) (b * 10 + (c - 48)) x y)

digits-lt :
    (c : ℕ) (s : List ℕ) (n : ℕ)
    → 8 ≤ n
    → is_digit c ≡ true
    → (s ≡ []) ⊎ ((c == 48) ≡ false)
    → digits_value 8 0 (c ∷ s) ≡ some n
    → digits_value 10 0 (c ∷ s) ≢ some n
unfolding digits_value
digits-lt c [] n big digit first p q = ground arith
digits-lt c (d ∷ s) n big digit (inl e) p q = cc
digits-lt c (d ∷ s) n big digit (inr e) p q =
    ground (arith, base-lt s ((c - 48) * 8 + (d - 48)) ((c - 48) * 10 + (d - 48)) n n)

in_range_inverse : (v : Option ℕ) (n : ℕ) → in_range v ≡ some n → v ≡ some n
in_range_inverse v n h = ground arith

parse_int-zero : (c : ℕ) (s : List ℕ) → parse_int (48 ∷ c ∷ s) ≡ in_range (digits_value 8 0 (c ∷ s))
unfolding parse_int
parse_int-zero c s = refl

-- An id from 8 on, printed in decimal with a zero before it, is not read back as itself.
pub parse_int-zero_ne :
    (n : ℕ) → 8 ≤ n → n < 9223372036854775808 → parse_int (48 ∷ codes (itoa n)) ≢ some n
unfolding itoa
parse_int-zero_ne n big h k =
    let small : ltb n 9223372036854775808 ≡ true = ground arith in
    let (c, s, e, first) = decimal-first n n (omega arith) in
    let digits : All (λ c. is_digit c ≡ true) (c ∷ s) =
      rw e at (decimal-IsDigits n n (omega arith)) in
    let octal : parse_int (48 ∷ digits_of n n) ≡ some n = rw small at k in
    let read = sym (parse_int-zero c s) ∙ ap (λ l. parse_int (48 ∷ l)) (sym e) ∙ octal in
    digits-lt c s n big digits.0 first (in_range_inverse _ n read)
      (ap (digits_value 10 0) (sym e) ∙ decimal-value n n (omega arith))
