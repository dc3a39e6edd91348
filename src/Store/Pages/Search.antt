-- ===== src/Store/Pages/Search.antt =====
-- The pages of a search, which are ordered by rank while the cursor is an id.
use youtube_ar.Base.{
  ℕ, ◌<◌, String, List, [], ◌∷◌, none, true, false, ok, Context, str_eq, ltb, ◌==◌, ◌≡◌, ◌≢◌, refl,
  ap, ◌∙◌, arith, str_eq_of_ne,
}
use youtube_ar.Model.{Url}
use youtube_ar.Query.{UrlsQuery}
use youtube_ar.Resource.{next_cursor}
use youtube_ar.Sql.{Querier}
use youtube_ar.Sql.Meaning.{UrlRow, Tables, TextSearch, returned_urls, signed}
use youtube_ar.Sql.Postgres.{Postgres}
use youtube_ar.Store.{list_urls, build_list_urls}
use youtube_ar.Store.Pages.Query.{two_63}

-- One url a page.
abbrev pub search_query : String → ℕ → UrlsQuery
search_query q cursor = record { cursor = cursor; limit = 1; status = none; q = q }

-- The older of two rows ranks higher.
abbrev pub RanksOlder : TextSearch → String → UrlRow → UrlRow → Type 0
RanksOlder ts q older newer =
    (older.deleted_at ≡ none)
    × (newer.deleted_at ≡ none)
    × (0 < older.url.id)
    × (older.url.id < newer.url.id)
    × (newer.url.id < two_63)
    × (ts.matches q older ≡ true)
    × (ts.matches q newer ≡ true)
    × (ts.rank q newer < ts.rank q older)

first_page :
    (ts : TextSearch) (now : ℕ) (q : String) (older newer : UrlRow) (t : Tables)
    → (str_eq q "") ≡ false
    → RanksOlder ts q older newer
    → t.urls ≡ older ∷ newer ∷ []
    → returned_urls ts now (build_list_urls (search_query q 0)) t ≡ older.url ∷ []
unfolding build_list_urls
first_page ts now q older newer t ne (a, b, pos, lt, small, m, n, rank) e =
    let higher : ltb (ts.rank q newer) (ts.rank q older) ≡ true = ground arith in
    simp (ne, e, a, b, m, n) (rw higher refl)

next_page :
    (ts : TextSearch) (now : ℕ) (q : String) (older newer : UrlRow) (t : Tables)
    → (str_eq q "") ≡ false
    → RanksOlder ts q older newer
    → t.urls ≡ older ∷ newer ∷ []
    → returned_urls ts now (build_list_urls (search_query q older.url.id)) t ≡ []
unfolding build_list_urls
next_page ts now q older newer t ne (a, b, pos, lt, small, m, n, rank) e =
    let nonzero : (older.url.id == 0) ≡ false = ground arith in
    let same : ltb (signed older.url.id) (signed older.url.id) ≡ false = ground arith in
    let above : ltb (signed newer.url.id) (signed older.url.id) ≡ false = ground arith in
    simp (ne, nonzero, e, a, b, m, n, same, above)

module _ (db : Querier) (pg : Postgres db) where
  -- Where the older of the only two rows ranks higher in a search, and both match, following the cursor
  -- over pages of one url loses the newer: the first page has the older url, and the page from its
  -- cursor on is empty.
  pub search_loses :
      (ctx ctx' : Context) (q : String) (older newer : UrlRow) (c c' : db.Conn) (us us' : List Url)
      → q ≢ ""
      → RanksOlder pg.search q older newer
      → (pg.tables c).urls ≡ older ∷ newer ∷ []
      → pg.tables c' ≡ pg.tables c
      → (list_urls db ctx (search_query q 0) c).0 ≡ ok us
      → (list_urls db ctx' (search_query q (next_cursor us)) c').0 ≡ ok us'
      → (us ≡ older.url ∷ []) × (us' ≡ [])
  unfolding list_urls
  search_loses ctx ctx' q older newer c c' us us' ne ranks rows same h h' =
      let ne' = str_eq_of_ne q "" ne in
      let first =
        pg.query_urls_ok ctx _ c us h
        ∙ first_page pg.search (pg.clock c) q older newer (pg.tables c) ne' ranks rows in
      let from = ap next_cursor first in
      (
        first,
        pg.query_urls_ok ctx' _ c' us' h'
            ∙ ap
                (λ n.
                  returned_urls pg.search (pg.clock c') (build_list_urls (search_query q n))
                    (pg.tables c'))
                from
            ∙ next_page pg.search (pg.clock c') q older newer (pg.tables c') ne' ranks
                (ap (λ (t : Tables). t.urls) same ∙ rows),
      )
