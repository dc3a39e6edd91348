-- ===== src/Event/Distinct.antt =====
-- Two events whose texts are equal have the same url.
use Prim.Native.Char.{Char, code}
use text.Mathlib.TextLemmas.{
  cons-append, nil-append, append_assoc, append_cancel_left, append_cancel_right, append-eq-nil_iff,
  head-eq_of_cons-eq, tail-eq_of_cons-eq, cons≢nil,
}
use youtube_ar.Base.{
  ℕ, zero, suc, ◌%◌, ◌-◌, String, ◌<>◌, ◌≡◌, ◌≢◌, refl, sym, ap, ◌∙◌, arith, ltb, ◌==◌, ◌||◌,
  Bool-cases, inl, inr,
}
use youtube_ar.Event.{marshal}
use youtube_ar.Event.Json.{digit, decimal, itoa, escape_char, escape, quote, hex4}

-- No character of a text is a comma.
abbrev NoComma : String → Type 0
NoComma String.[] = Unit
NoComma (String.◌∷◌ c s) = (code c ≢ 44) × NoComma s

NoComma-append : (s t : String) → NoComma s → NoComma t → NoComma (s <> t)
NoComma-append String.[] t h k = rw nil-append k
NoComma-append (String.◌∷◌ c s) t (p, h) k = rw cons-append (p, NoComma-append s t h k)

digit-NoComma : (n : ℕ) → NoComma (digit n)
digit-NoComma zero = (omega arith, tt)
digit-NoComma (suc zero) = (omega arith, tt)
digit-NoComma (suc (suc zero)) = (omega arith, tt)
digit-NoComma (suc (suc (suc zero))) = (omega arith, tt)
digit-NoComma (suc (suc (suc (suc zero)))) = (omega arith, tt)
digit-NoComma (suc (suc (suc (suc (suc zero))))) = (omega arith, tt)
digit-NoComma (suc (suc (suc (suc (suc (suc zero)))))) = (omega arith, tt)
digit-NoComma (suc (suc (suc (suc (suc (suc (suc zero))))))) = (omega arith, tt)
digit-NoComma (suc (suc (suc (suc (suc (suc (suc (suc zero)))))))) = (omega arith, tt)
digit-NoComma (suc (suc (suc (suc (suc (suc (suc (suc (suc zero))))))))) = (omega arith, tt)
digit-NoComma (suc (suc (suc (suc (suc (suc (suc (suc (suc (suc zero)))))))))) = (omega arith, tt)
digit-NoComma (suc (suc (suc (suc (suc (suc (suc (suc (suc (suc (suc zero))))))))))) =
    (omega arith, tt)
digit-NoComma (suc (suc (suc (suc (suc (suc (suc (suc (suc (suc (suc (suc zero)))))))))))) =
    (omega arith, tt)
digit-NoComma (suc (suc (suc (suc (suc (suc (suc (suc (suc (suc (suc (suc (suc zero))))))))))))) =
    (omega arith, tt)
digit-NoComma
      (suc (suc (suc (suc (suc (suc (suc (suc (suc (suc (suc (suc (suc (suc zero)))))))))))))) =
    (omega arith, tt)
digit-NoComma _ = (omega arith, tt)

decimal-NoComma : (fuel n : ℕ) → NoComma (decimal fuel n)
unfolding decimal
decimal-NoComma zero n = digit-NoComma (n % 10)
decimal-NoComma (suc fuel) n = elim (Bool-cases (ltb n 10)) [
  | inl h ↦ rw h (digit-NoComma (n % 10))
  | inr h ↦ rw h (NoComma-append _ _ (decimal-NoComma fuel _) (digit-NoComma (n % 10)))
]

itoa-NoComma : (n : ℕ) → NoComma (itoa n)
unfolding itoa
itoa-NoComma n = elim (Bool-cases (ltb n 9223372036854775808)) [
  | inl h ↦ rw h (decimal-NoComma n n)
  | inr h ↦ rw h (NoComma-append "-" (decimal m m) (omega arith, tt) (decimal-NoComma m m))
]
  where
    m : ℕ
    m = 18446744073709551616 - n

comma_cons : (x : String) → "," <> x ≡ String.◌∷◌ "," x
comma_cons x = cons-append "," "" x ∙ ap (String.◌∷◌ ",") (nil-append x)

-- Texts without commas before a comma are equal, and so is what follows.
rest_of_comma :
    (s t x y : String) → NoComma s → NoComma t → s <> ("," <> x) ≡ t <> ("," <> y) → x ≡ y
rest_of_comma String.[] String.[] x y h k e =
    append_cancel_left "," x y (sym (nil-append _) ∙ e ∙ nil-append _)
rest_of_comma String.[] (String.◌∷◌ c t) x y h k e =
    let e' = sym (comma_cons x) ∙ sym (nil-append _) ∙ e ∙ cons-append c t _ in
    absurd (k.0 (sym (ap code (head-eq_of_cons-eq e'))))
rest_of_comma (String.◌∷◌ c s) String.[] x y h k e =
    let e' = sym (comma_cons y) ∙ sym (nil-append _) ∙ sym e ∙ cons-append c s _ in
    absurd (h.0 (sym (ap code (head-eq_of_cons-eq e'))))
rest_of_comma (String.◌∷◌ c s) (String.◌∷◌ d t) x y (_, h) (_, k) e =
    rest_of_comma s t x y h k (tail-eq_of_cons-eq (sym (cons-append c s _) ∙ e ∙ cons-append d t _))

abbrev NonEmpty : String → Type 0
NonEmpty s = s ≢ ""

hex4-NonEmpty : (n : ℕ) → NonEmpty (hex4 n)
hex4-NonEmpty n h = absurd (cons≢nil (sym (cons-append "\\" "u" _) ∙ h))

escape_char-NonEmpty : (c : Char) → NonEmpty (escape_char c)
escape_char-NonEmpty c = elim (Bool-cases (code c == 34)) [
  | inl h ↦ rw h (λ e. cons≢nil e)
  | inr h ↦ rw h (elim (Bool-cases (code c == 92)) [
    | inl h ↦ rw h (λ e. cons≢nil e)
    | inr h ↦ rw h (elim (Bool-cases (code c == 10)) [
      | inl h ↦ rw h (λ e. cons≢nil e)
      | inr h ↦ rw h (elim (Bool-cases (code c == 13)) [
        | inl h ↦ rw h (λ e. cons≢nil e)
        | inr h ↦ rw h (elim (Bool-cases (code c == 9)) [
          | inl h ↦ rw h (λ e. cons≢nil e)
          | inr h ↦
              rw h
                (elim (Bool-cases (
                  ltb (code c) 32
                  || code c == 60
                  || code c == 62
                  || code c == 38
                  || code c == 8232
                  || code c == 8233)) [
                    | inl h ↦ rw h (hex4-NonEmpty (code c))
                    | inr h ↦ rw h (λ e. cons≢nil e)
                  ])
        ])
      ])
    ])
  ])
]

escape-NonEmpty : (s : String) → s ≢ "" → NonEmpty (escape s)
unfolding escape
escape-NonEmpty String.[] h e = absurd (h refl)
escape-NonEmpty (String.◌∷◌ c s) h e = escape_char-NonEmpty c (append-eq-nil_iff.0 e).0

escape-nil : escape "" ≡ ""
unfolding escape
escape-nil = refl

quote_inj : (s t : String) → quote s ≡ quote t → escape s ≡ escape t
unfolding quote
quote_inj s t e = append_cancel_right _ _ "\"" (append_cancel_left "\"" _ _ e)

split_comma : (q : String) → ",\"url\":" <> q ≡ "," <> ("\"url\":" <> q)
split_comma q = append_assoc "," "\"url\":" q

-- The text of an event without a url is that of no event with one, whatever the ids are.
pub marshal_ne :
    (id id' : ℕ) (url : String)
    → url ≢ ""
    → marshal (record { id = id; url = "" }) ≢ marshal (record { id = id'; url = url })
unfolding marshal
marshal_ne id id' url h e =
    let after_id = append_cancel_left "{\"id\":" _ _ e in
    let q = quote "" <> "}" in
    let q' = quote url <> "}" in
    let rest =
      rest_of_comma (itoa id) (itoa id') ("\"url\":" <> q) ("\"url\":" <> q') (itoa-NoComma id)
        (itoa-NoComma id')
        (ap (λ x. itoa id <> x) (sym (split_comma q))
          ∙ after_id
          ∙ ap (λ x. itoa id' <> x) (split_comma q')) in
    let same =
      quote_inj "" url (append_cancel_right _ _ "}" (append_cancel_left "\"url\":" _ _ rest)) in
    escape-NonEmpty url h (sym same ∙ escape-nil)
