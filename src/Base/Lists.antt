-- ===== src/Base/Lists.antt =====
-- Lists over the native numbers, under the library's names.
use Prim.Native.Nat.{ℕ, zero, suc, ◌+◌, ◌≤◌}
use mathlib.Core.Path.{◌≡◌, refl, ap}
use mathlib.Core.Logic.{◌⊎◌, inl, inr}
use mathlib.Core.Bool.{Bool, ◌&&◌}
use mathlib.Core.Option.{Option, none, some}
use mathlib.Core.List.{List, [], ◌∷◌, ◌++◌, map}
use native.Mathlib.Omega.{arith}
use youtube_ar.Base.Tests.{if◌then◌else◌, Bool-cases}

module _ {ℓ} {A : Type ℓ} where
  abbrev pub length : List A → ℕ
  length [] = 0
  length (x ∷ xs) = suc (length xs)

  abbrev pub take : ℕ → List A → List A
  take zero xs = []
  take (suc n) [] = []
  take (suc n) (x ∷ xs) = x ∷ take n xs

  abbrev pub drop : ℕ → List A → List A
  drop zero xs = xs
  drop (suc n) [] = []
  drop (suc n) (x ∷ xs) = drop n xs

  -- The library's `filter` takes a decision; the program's tests are Booleans.
  abbrev pub filter : (A → Bool) → List A → List A
  filter p [] = []
  filter p (x ∷ xs) = if p x then x ∷ filter p xs else filter p xs

  abbrev pub head? : List A → Option A
  head? [] = none
  head? (x ∷ xs) = some x

  abbrev pub get_last? : List A → Option A
  get_last? [] = none
  get_last? (x ∷ []) = some x
  get_last? (x ∷ y ∷ xs) = get_last? (y ∷ xs)

  pub length-append : (xs ys : List A) → length (xs ++ ys) ≡ length xs + length ys
  length-append [] ys = omega arith
  length-append (x ∷ xs) ys = omega (arith, length-append xs ys)

module _ {ℓ κ} {A : Type ℓ} (P : A → Type κ) where
  abbrev pub All : List A → Type κ
  All [] = Unit
  All (x ∷ xs) = P x × All xs

  pub All-append : (xs ys : List A) → All xs → All ys → All (xs ++ ys)
  All-append [] ys h k = k
  All-append (x ∷ xs) ys (p, h) k = (p, All-append xs ys h k)

pub Option-cases {ℓ} : {A : Type ℓ} (o : Option A) → (o ≡ none) ⊎ ((a : A) × (o ≡ some a))
Option-cases none = inl refl
Option-cases (some a) = inr (a, refl)

module _ {ℓ} {A : Type ℓ} where
  pub take-drop : (n : ℕ) (l : List A) → take n l ++ drop n l ≡ l
  take-drop zero l = refl
  take-drop (suc n) [] = refl
  take-drop (suc n) (x ∷ l) = ap (λ k. x ∷ k) (take-drop n l)

  pub length-drop_le : (n : ℕ) (l : List A) → length (drop n l) ≤ length l
  length-drop_le zero l = omega arith
  length-drop_le (suc n) [] = omega arith
  length-drop_le (suc n) (x ∷ l) = omega (arith, length-drop_le n l)

  pub length-drop : (n : ℕ) (l : List A) → n ≤ length l → n + length (drop n l) ≡ length l
  length-drop zero l h = omega arith
  length-drop (suc n) [] h = absurd (omega (arith, h))
  length-drop (suc n) (x ∷ l) h = omega (arith, length-drop n l (omega (arith, h)))

  pub drop-all : (l : List A) → drop (length l) l ≡ []
  drop-all [] = refl
  drop-all (x ∷ l) = drop-all l

  pub drop-append : (n : ℕ) (l m : List A) → n ≤ length l → drop n (l ++ m) ≡ drop n l ++ m
  drop-append zero l m h = refl
  drop-append (suc n) [] m h = absurd (omega (arith, h))
  drop-append (suc n) (x ∷ l) m h = drop-append n l m (omega (arith, h))

  pub filter_same : (p q : A → Bool) (l : List A) → All (λ x. p x ≡ q x) l → filter p l ≡ filter q l
  filter_same p q [] h = refl
  filter_same p q (x ∷ l) (e, h) = rw (e, filter_same p q l h) refl

  pub filter-and :
      (p q : A → Bool) (l : List A) → filter (λ x. p x && q x) l ≡ filter q (filter p l)
  filter-and p q [] = refl
  filter-and p q (x ∷ l) = elim (Bool-cases (p x)) [
    | inl e ↦ rw (e, filter-and p q l) refl
    | inr e ↦ rw (e, filter-and p q l) refl
  ]

  pub filter-append : (p : A → Bool) (l m : List A) → filter p (l ++ m) ≡ filter p l ++ filter p m
  filter-append p [] m = refl
  filter-append p (x ∷ l) m = elim (Bool-cases (p x)) [
    | inl e ↦ rw e (ap (λ k. x ∷ k) (filter-append p l m))
    | inr e ↦ rw e (filter-append p l m)
  ]

  pub filter-map :
      (p : A → Bool) (f : A → A) (l : List A)
      → ((x : A) → p (f x) ≡ p x)
      → filter p (map f l) ≡ map f (filter p l)
  filter-map p f [] h = refl
  filter-map p f (x ∷ l) h = elim (Bool-cases (p x)) [
    | inl e ↦ rw (h x, e) (ap (λ k. f x ∷ k) (filter-map p f l h))
    | inr e ↦ rw (h x, e) (filter-map p f l h)
  ]

pub map-append {ℓ κ} :
    {A : Type ℓ} {B : Type κ} (f : A → B) (l m : List A) → map f (l ++ m) ≡ map f l ++ map f m
map-append f [] m = refl
map-append f (x ∷ l) m = ap (λ k. f x ∷ k) (map-append f l m)
