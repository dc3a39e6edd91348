-- ===== src/Server/Number/Printed.antt =====
-- An id that the API prints, as strconv.Itoa does, is read back by ParseInt.
use Prim.Native.Char.{code}
use text.Mathlib.TextLemmas.{cons-append, nil-append}
use youtube_ar.Base.{
  ℕ, zero, suc, ◌+◌, ◌-◌, ◌*◌, ◌/◌, ◌%◌, ◌≤◌, ◌<◌, String, ◌<>◌, List, [], ◌∷◌, ◌++◌, Option, none,
  some, codes, ltb, ◌==◌, ◌≡◌, refl, sym, ap, ◌∙◌, arith, Bool-cases, ◌⊎◌, inl, inr, All,
  All-append, true, false,
}
use youtube_ar.Event.Json.{digit, decimal, itoa}
use youtube_ar.Server.Number.{digits_value, in_range, parse_int}
use youtube_ar.Server.Routes.{is_digit}

pub codes-append : (s t : String) → codes (s <> t) ≡ codes s ++ codes t
codes-append String.[] t = ap codes (nil-append t)
codes-append (String.◌∷◌ c s) t =
    ap codes (cons-append c s t) ∙ ap (λ l. code c ∷ l) (codes-append s t)

codes-digit : (d : ℕ) → d < 10 → codes (digit d) ≡ (d + 48) ∷ []
codes-digit zero h = refl
codes-digit (suc zero) h = refl
codes-digit (suc (suc zero)) h = refl
codes-digit (suc (suc (suc zero))) h = refl
codes-digit (suc (suc (suc (suc zero)))) h = refl
codes-digit (suc (suc (suc (suc (suc zero))))) h = refl
codes-digit (suc (suc (suc (suc (suc (suc zero)))))) h = refl
codes-digit (suc (suc (suc (suc (suc (suc (suc zero))))))) h = refl
codes-digit (suc (suc (suc (suc (suc (suc (suc (suc zero)))))))) h = refl
codes-digit (suc (suc (suc (suc (suc (suc (suc (suc (suc zero))))))))) h = refl
codes-digit (suc (suc (suc (suc (suc (suc (suc (suc (suc (suc n)))))))))) h = absurd (omega arith)

-- The digits of a number, as codes.
abbrev pub digits_of : ℕ → ℕ → List ℕ
digits_of fuel n = codes (decimal fuel n)

decimal_small : (fuel n : ℕ) → n < 10 → digits_of fuel n ≡ (n + 48) ∷ []
unfolding decimal
decimal_small zero n h =
    codes-digit (n % 10) (omega arith)
    ∙ ap (λ m. (m + 48) ∷ []) (let e : n % 10 ≡ n = omega arith in e)
decimal_small (suc fuel) n h =
    let small : ltb n 10 ≡ true = ground arith in
    rw small (
      codes-digit (n % 10) (omega arith)
      ∙ ap (λ m. (m + 48) ∷ []) (let e : n % 10 ≡ n = omega arith in e))

decimal_large :
    (fuel n : ℕ) → 10 ≤ n → digits_of (suc fuel) n ≡ digits_of fuel (n / 10) ++ (n % 10 + 48) ∷ []
unfolding decimal
decimal_large fuel n h =
    let large : ltb n 10 ≡ false = ground arith in
    rw large (
      codes-append (decimal fuel (n / 10)) (digit (n % 10))
      ∙ ap (λ l. digits_of fuel (n / 10) ++ l) (codes-digit (n % 10) (omega arith)))

bind_value : Option ℕ → (ℕ → Option ℕ) → Option ℕ
bind_value none k = none
bind_value (some n) k = k n

digits_value-append :
    (base n : ℕ) (s t : List ℕ)
    → digits_value base n (s ++ t) ≡ bind_value (digits_value base n s) (λ m. digits_value base m t)
unfolding digits_value bind_value
digits_value-append base n [] t = refl
digits_value-append base n (c ∷ s) t = elim (Bool-cases (ltb (c - 48) base)) [
  | inl e ↦ rw e (digits_value-append base (n * base + (c - 48)) s t)
  | inr e ↦ rw e refl
]

one_digit : (m d : ℕ) → d < 10 → digits_value 10 m ((d + 48) ∷ []) ≡ some (m * 10 + d)
unfolding digits_value
one_digit m d h = ground arith

pub decimal-value : (fuel n : ℕ) → n ≤ fuel → digits_value 10 0 (digits_of fuel n) ≡ some n
unfolding bind_value
decimal-value zero n h =
    ap (digits_value 10 0) (decimal_small zero n (omega arith))
    ∙ one_digit 0 n (omega arith)
    ∙ ap some (let e : 0 * 10 + n ≡ n = omega arith in e)
decimal-value (suc fuel) n h = elim (Bool-cases (ltb n 10)) [
  | inl small ↦
      ap (digits_value 10 0) (decimal_small (suc fuel) n (ground arith))
      ∙ one_digit 0 n (ground arith)
      ∙ ap some (let e : 0 * 10 + n ≡ n = omega arith in e)
  | inr large ↦
      ap (digits_value 10 0) (decimal_large fuel n (ground arith))
      ∙ digits_value-append 10 0 (digits_of fuel (n / 10)) ((n % 10 + 48) ∷ [])
      ∙ ap (λ v. bind_value v (λ m. digits_value 10 m ((n % 10 + 48) ∷ [])))
          (decimal-value fuel (n / 10) (ground arith))
      ∙ one_digit (n / 10) (n % 10) (omega arith)
      ∙ ap some (let e : n / 10 * 10 + n % 10 ≡ n = omega arith in e)
]

-- A digit, and more digits.
abbrev IsDigits : List ℕ → Type 0
IsDigits = All (λ c. is_digit c ≡ true)

digit-is_digit : (d : ℕ) → d < 10 → is_digit (d + 48) ≡ true
digit-is_digit d h = ground arith

pub decimal-IsDigits : (fuel n : ℕ) → n ≤ fuel → IsDigits (digits_of fuel n)
decimal-IsDigits zero n h =
    rw (decimal_small zero n (omega arith)) (digit-is_digit n (omega arith), tt)
decimal-IsDigits (suc fuel) n h = elim (Bool-cases (ltb n 10)) [
  | inl small ↦ rw (decimal_small (suc fuel) n (ground arith)) (digit-is_digit n (ground arith), tt)
  | inr large ↦ rw (decimal_large fuel n (ground arith)) (
      All-append (λ c. is_digit c ≡ true) (digits_of fuel (n / 10)) ((n % 10 + 48) ∷ [])
        (decimal-IsDigits fuel (n / 10) (ground arith)) (digit-is_digit (n % 10) (omega arith), tt))
]

decimal_head :
    (fuel n : ℕ)
    → n ≤ fuel
    → 0 < n
    → (c : ℕ) × (s : List ℕ) × (digits_of fuel n ≡ c ∷ s) × ((c == 48) ≡ false)
decimal_head zero n h pos = absurd (omega arith)
decimal_head (suc fuel) n h pos = elim (Bool-cases (ltb n 10)) [
  | inl small ↦ (n + 48, [], decimal_small (suc fuel) n (ground arith), ground arith)
  | inr large ↦
      let (c, s, e, nonzero) = decimal_head fuel (n / 10) (ground arith) (ground arith) in
      (
        c,
        s ++ (n % 10 + 48) ∷ [],
        decimal_large fuel n (ground arith) ∙ ap (λ l. l ++ (n % 10 + 48) ∷ []) e,
        nonzero,
      )
]

-- The first digit, which is no zero where the number has more than one.
pub decimal-first :
    (fuel n : ℕ)
    → n ≤ fuel
    → (c : ℕ) × (s : List ℕ) × (digits_of fuel n ≡ c ∷ s) × ((s ≡ []) ⊎ ((c == 48) ≡ false))
decimal-first zero n h = (n + 48, [], decimal_small zero n (omega arith), inl refl)
decimal-first (suc fuel) n h = elim (Bool-cases (ltb n 10)) [
  | inl small ↦ (n + 48, [], decimal_small (suc fuel) n (ground arith), inl refl)
  | inr large ↦
      let (c, s, e, nonzero) = decimal_head fuel (n / 10) (ground arith) (ground arith) in
      (
        c,
        s ++ (n % 10 + 48) ∷ [],
        decimal_large fuel n (ground arith) ∙ ap (λ l. l ++ (n % 10 + 48) ∷ []) e,
        inr nonzero,
      )
]

parse_int-decimal :
    (c : ℕ) (s : List ℕ)
    → (s ≡ []) ⊎ ((c == 48) ≡ false)
    → parse_int (c ∷ s) ≡ in_range (digits_value 10 0 (c ∷ s))
unfolding parse_int
parse_int-decimal c [] h = refl
parse_int-decimal c (d ∷ s) (inl e) = cc
parse_int-decimal c (d ∷ s) (inr e) = rw e refl

-- An id below 2 ^ 63, printed in decimal, is read back as itself.
pub parse_int-itoa : (n : ℕ) → n < 9223372036854775808 → parse_int (codes (itoa n)) ≡ some n
unfolding itoa
parse_int-itoa n h =
    let small : ltb n 9223372036854775808 ≡ true = ground arith in
    let (c, s, e, first) = decimal-first n n (omega arith) in
    rw small (
      ap parse_int e
      ∙ parse_int-decimal c s first
      ∙ ap (λ l. in_range (digits_value 10 0 l)) (sym e)
      ∙ ap in_range (decimal-value n n (omega arith))
      ∙ rw small refl)

-- A printed number is a digit and more digits.
pub itoa-digits :
    (n : ℕ)
    → n < 9223372036854775808
    → (c : ℕ) × (s : List ℕ) × (codes (itoa n) ≡ c ∷ s) × All (λ c. is_digit c ≡ true) (c ∷ s)
unfolding itoa
itoa-digits n h =
    let small : ltb n 9223372036854775808 ≡ true = ground arith in
    let (c, s, e, _) = decimal-first n n (omega arith) in
    (c, s, rw small e, rw e at (decimal-IsDigits n n (omega arith)))
