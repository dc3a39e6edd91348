-- ===== src/Store/Pages/Order.antt =====
-- Lists of rows in descending order of their ids, and what is below one of them.
use mathlib.Core.List.{reverse, reverse-cons, append-nil}
use mathlib.Core.Option.{some-injective}
use youtube_ar.Base.{
  filter-append, ℕ, ◌+◌, ◌≤◌, ◌<◌, List, [], ◌∷◌, ◌++◌, some, Bool, true, false, ltb, ◌≡◌, refl,
  sym, ap, ◌∙◌, arith, filter, All, get_last?, Bool-cases, inl, inr,
}
use youtube_ar.Sql.Meaning.{UrlRow, later_id, insert_by, sort_by}
use youtube_ar.Store.Ids.{Ascending, Ascending-le}

-- The ids fall, from below `hi` on.
abbrev pub Descending : ℕ → List UrlRow → Type 0
Descending hi [] = Unit
Descending hi (r ∷ rows) = (r.url.id < hi) × Descending (r.url.id) rows

-- Whether a row comes after the cursor.
abbrev pub is_below : ℕ → UrlRow → Bool
is_below cursor r = ltb r.url.id cursor

abbrev pub From : ℕ → List UrlRow → Type 0
From lo = All (λ r. lo ≤ r.url.id)

From-le : (lo lo' : ℕ) (rows : List UrlRow) → lo ≤ lo' → From lo' rows → From lo rows
From-le lo lo' [] h k = tt
From-le lo lo' (r ∷ rows) h (p, k) = (omega (arith, p, h), From-le lo lo' rows h k)

From-append :
    (lo : ℕ) (rows : List UrlRow) (r : UrlRow)
    → From lo rows
    → lo ≤ r.url.id
    → From lo (rows ++ r ∷ [])
From-append lo [] r h p = (p, tt)
From-append lo (x ∷ rows) r (q, h) p = (q, From-append lo rows r h p)

pub From-reverse : (lo : ℕ) (rows : List UrlRow) → From lo rows → From lo (reverse rows)
From-reverse lo [] h = tt
From-reverse lo (r ∷ rows) (p, h) =
    rw (reverse-cons r rows) (From-append lo (reverse rows) r (From-reverse lo rows h) p)

pub Ascending-From :
    (lo : ℕ) (rows : List UrlRow) (hi : ℕ) (p : UrlRow → Bool)
    → Ascending lo rows hi
    → From lo (filter p rows)
Ascending-From lo [] hi p h = tt
Ascending-From lo (r ∷ rows) hi p (q, h) =
    let more =
      From-le lo (r.url.id + 1) (filter p rows) (omega (arith, q))
        (Ascending-From (r.url.id + 1) rows hi p h) in
    elim (Bool-cases (p r)) [ inl e ↦ rw e (q, more) | inr e ↦ rw e more ]

-- A row whose id is less than all others' goes to the end.
insert-last :
    (r : UrlRow) (rows : List UrlRow)
    → From (r.url.id + 1) rows
    → insert_by later_id r rows ≡ rows ++ r ∷ []
insert-last r [] h = refl
insert-last r (x ∷ rows) (p, h) =
    let e : later_id r x ≡ false = ground arith in rw e (ap (λ l. x ∷ l) (insert-last r rows h))

-- `order by id desc` reverses rows that are in the order of insertion.
pub sort_by-Ascending :
    (lo : ℕ) (rows : List UrlRow) (hi : ℕ) (p : UrlRow → Bool)
    → Ascending lo rows hi
    → sort_by later_id (filter p rows) ≡ reverse (filter p rows)
sort_by-Ascending lo [] hi p h = refl
sort_by-Ascending lo (r ∷ rows) hi p (q, h) =
    let sorted = sort_by-Ascending (r.url.id + 1) rows hi p h in
    elim (Bool-cases (p r)) [
      | inl e ↦
          rw (e, sorted)
            (insert-last r (reverse (filter p rows)) (
                From-reverse (r.url.id + 1) (filter p rows)
                  (Ascending-From (r.url.id + 1) rows hi p h))
              ∙ sym (reverse-cons r (filter p rows)))
      | inr e ↦ rw e sorted
    ]

Descending-append :
    (hi : ℕ) (rows : List UrlRow) (r : UrlRow)
    → r.url.id < hi
    → From (r.url.id + 1) rows
    → Descending hi rows
    → Descending hi (rows ++ r ∷ [])
Descending-append hi [] r p h k = (p, tt)
Descending-append hi (x ∷ rows) r p (q, h) (k, d) =
    (k, Descending-append x.url.id rows r (omega (arith, q)) h d)

-- So rows in the order of insertion descend when they are reversed.
pub reverse-Descending :
    (lo : ℕ) (rows : List UrlRow) (hi : ℕ) (p : UrlRow → Bool)
    → Ascending lo rows hi
    → Descending hi (reverse (filter p rows))
reverse-Descending lo [] hi p h = tt
reverse-Descending lo (r ∷ rows) hi p (q, h) =
    let more = reverse-Descending (r.url.id + 1) rows hi p h in
    elim (Bool-cases (p r)) [
      | inl e ↦
          rw (e, reverse-cons r (filter p rows))
            (Descending-append hi (reverse (filter p rows)) r
              (omega (arith, Ascending-le (r.url.id + 1) rows hi h))
              (From-reverse (r.url.id + 1) (filter p rows)
                (Ascending-From (r.url.id + 1) rows hi p h))
              more)
      | inr e ↦ rw e more
    ]

Descending-le : (lo hi : ℕ) (rows : List UrlRow) → lo ≤ hi → Descending lo rows → Descending hi rows
Descending-le lo hi [] h k = tt
Descending-le lo hi (r ∷ rows) h (p, k) = (omega (arith, p, h), k)

filter-below-all :
    (cursor : ℕ) (rows : List UrlRow)
    → Descending cursor rows
    → filter (is_below cursor) rows ≡ rows
filter-below-all cursor [] h = refl
filter-below-all cursor (r ∷ rows) (p, h) =
    let e : is_below cursor r ≡ true = ground arith in
    rw e (
      ap (λ l. r ∷ l)
        (filter-below-all cursor rows (Descending-le r.url.id cursor rows (omega (arith, p)) h)))

pub last-lt :
    (hi : ℕ) (page more : List UrlRow) (x : UrlRow)
    → get_last? page ≡ some x
    → Descending hi (page ++ more)
    → x.url.id < hi
last-lt hi [] more x e h = absurd (ground arith)
last-lt hi (r ∷ []) more x e (p, h) = rw (some-injective _ _ e) at p
last-lt hi (r ∷ s ∷ page) more x e (p, h) = omega (arith, p, last-lt r.url.id (s ∷ page) more x e h)

-- What is below the last row of a page is what comes after the page.
pub filter-after :
    (hi : ℕ) (page more : List UrlRow) (x : UrlRow)
    → get_last? page ≡ some x
    → Descending hi (page ++ more)
    → filter (is_below x.url.id) (page ++ more) ≡ more
filter-after hi [] more x e h = absurd (ground arith)
filter-after hi (r ∷ []) more x e (p, h) =
    let same = some-injective _ _ e in
    let above : is_below x.url.id r ≡ false = rw (sym same) (ground arith) in
    rw above (filter-below-all x.url.id more (rw same at h))
filter-after hi (r ∷ s ∷ page) more x e (p, h) =
    let lower = last-lt r.url.id (s ∷ page) more x e h in
    let above : is_below x.url.id r ≡ false = ground arith in
    rw above (filter-after r.url.id (s ∷ page) more x e h)

pub filter-reverse :
    (p : UrlRow → Bool) (rows : List UrlRow) → filter p (reverse rows) ≡ reverse (filter p rows)
filter-reverse p [] = refl
filter-reverse p (r ∷ rows) =
    ap (filter p) (reverse-cons r rows)
    ∙ filter-append p (reverse rows) (r ∷ [])
    ∙ elim (Bool-cases (p r)) [
      | inl e ↦
          rw e
            (ap (λ l. l ++ r ∷ []) (filter-reverse p rows) ∙ sym (reverse-cons r (filter p rows)))
      | inr e ↦ rw e (append-nil _ ∙ filter-reverse p rows)
    ]
