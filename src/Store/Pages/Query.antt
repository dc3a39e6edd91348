-- ===== src/Store/Pages/Query.antt =====
-- The rows that ListURLs selects for a page.
use mathlib.Core.List.{reverse}
use youtube_ar.Base.{
  filter_same, filter-and, ℕ, ◌+◌, ◌≤◌, ◌<◌, String, List, [], ◌∷◌, map, Option, none, some, Bool,
  false, ltb, ◌==◌, ◌&&◌, if◌then◌else◌, ◌≡◌, refl, sym, ap, ◌∙◌, arith, filter, take, All,
  Bool-cases, inl, inr,
}
use youtube_ar.Sql.{is_null, ident}
use youtube_ar.Sql.Meaning.{
  UrlRow, Tables, TextSearch, holds, signed, returned_urls, later_id, sort_by, row_url,
}
use youtube_ar.Store.{build_list_urls, status_condition, cursor_condition}
use youtube_ar.Store.Ids.{Ascending, Ascending-le, AreNumbered}
use youtube_ar.Store.Pages.{page_query, is_listed, listing}
use youtube_ar.Store.Pages.Order.{is_below, sort_by-Ascending, filter-reverse}

abbrev pub two_63 : ℕ
two_63 = 9223372036854775808

-- What follows a cursor; 0 is no cursor.
abbrev pub after_cursor : ℕ → List UrlRow → List UrlRow
after_cursor cursor rows = if cursor == 0 then rows else filter (is_below cursor) rows

abbrev Below : ℕ → List UrlRow → Type 0
Below hi = All (λ r. r.url.id < hi)

Ascending-Below : (lo : ℕ) (rows : List UrlRow) (hi : ℕ) → Ascending lo rows hi → Below hi rows
Ascending-Below lo [] hi h = tt
Ascending-Below lo (r ∷ rows) hi (p, h) =
    (omega (arith, Ascending-le (r.url.id + 1) rows hi h), Ascending-Below (r.url.id + 1) rows hi h)

-- The test of the statement on a row.
abbrev selects : TextSearch → Option (List String) → ℕ → UrlRow → Bool
selects ts status cursor r =
    holds ts "" r (cursor_condition cursor (status_condition status (is_null (ident "deleted_at"))))

signed-lt : (a b : ℕ) → a < two_63 → b < two_63 → ltb (signed a) (signed b) ≡ ltb a b
signed-lt a b h k = ground arith

selects_first :
    (ts : TextSearch) (status : Option (List String)) (r : UrlRow)
    → selects ts status 0 r ≡ is_listed status r
selects_first ts none r = refl
selects_first ts (some l) r = refl

selects_after :
    (ts : TextSearch) (status : Option (List String)) (cursor : ℕ) (r : UrlRow)
    → (cursor == 0) ≡ false
    → cursor < two_63
    → r.url.id < two_63
    → selects ts status cursor r ≡ (is_listed status r && is_below cursor r)
selects_after ts none cursor r e h k = rw (e, signed-lt r.url.id cursor k h) refl
selects_after ts (some l) cursor r e h k = rw (e, signed-lt r.url.id cursor k h) refl

All-selects_after :
    (ts : TextSearch) (status : Option (List String)) (cursor hi : ℕ) (rows : List UrlRow)
    → (cursor == 0) ≡ false
    → cursor < two_63
    → hi ≤ two_63
    → Below hi rows
    → All (λ r. selects ts status cursor r ≡ (is_listed status r && is_below cursor r)) rows
All-selects_after ts status cursor hi [] e h k below = tt
All-selects_after ts status cursor hi (r ∷ rows) e h k (p, below) = (
  selects_after ts status cursor r e h (omega (arith, p, k)),
  All-selects_after ts status cursor hi rows e h k below,
)

All-selects_first :
    (ts : TextSearch) (status : Option (List String)) (rows : List UrlRow)
    → All (λ r. selects ts status 0 r ≡ is_listed status r) rows
All-selects_first ts status [] = tt
All-selects_first ts status (r ∷ rows) =
    (selects_first ts status r, All-selects_first ts status rows)

-- The selected rows in their order, before the limit.
selected-sorted :
    (ts : TextSearch) (status : Option (List String)) (cursor : ℕ) (t : Tables)
    → AreNumbered t
    → t.next_id ≤ two_63
    → cursor < two_63
    → sort_by later_id (filter (selects ts status cursor) t.urls)
      ≡ after_cursor cursor (listing status t.urls)
selected-sorted ts status cursor t numbered small h = elim (Bool-cases (cursor == 0)) [
  | inl e ↦ rw e (
      let start : cursor ≡ 0 = ground arith in
      ap (λ c. sort_by later_id (filter (selects ts status c) t.urls)) start
      ∙ ap (sort_by later_id)
          (filter_same _ (is_listed status) t.urls (All-selects_first ts status t.urls))
      ∙ sort_by-Ascending 1 t.urls t.next_id (is_listed status) numbered)
  | inr e ↦ rw e (
      ap (sort_by later_id) (
        filter_same _ (λ r. is_listed status r && is_below cursor r) t.urls
          (All-selects_after ts status cursor t.next_id t.urls e h small
            (Ascending-Below 1 t.urls t.next_id numbered)))
      ∙ sort_by-Ascending 1 t.urls t.next_id (λ r. is_listed status r && is_below cursor r) numbered
      ∙ ap reverse (filter-and (is_listed status) (is_below cursor) t.urls)
      ∙ sym (filter-reverse (is_below cursor) (filter (is_listed status) t.urls)))
]

-- The urls of a page are the first of those after the cursor.
pub returned-listing :
    (ts : TextSearch) (now limit : ℕ) (status : Option (List String)) (cursor : ℕ) (t : Tables)
    → AreNumbered t
    → t.next_id ≤ two_63
    → cursor < two_63
    → returned_urls ts now (build_list_urls (page_query limit status cursor)) t
      ≡ map row_url (take limit (after_cursor cursor (listing status t.urls)))
unfolding build_list_urls
returned-listing ts now limit status cursor t numbered small h =
    ap (λ rows. map row_url (take limit rows)) (selected-sorted ts status cursor t numbered small h)
