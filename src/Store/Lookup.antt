-- ===== src/Store/Lookup.antt =====
-- A url is found under the id that it was created with, until it is deleted.
use mathlib.Core.Option.{some-injective}
use youtube_ar.Base.{
  ℕ, ◌+◌, ◌<◌, List, [], ◌∷◌, ◌++◌, map, none, some, ok, err, no_rows, ◌≡◌, ◌≢◌, refl, sym, ap, ◌∙◌,
  arith, filter, Bool, true, false, ◌==◌, ◌&&◌, Context, head?, Result-cases, GoError, ◌⊎◌, inl,
  inr, ==_refl,
}
use youtube_ar.Model.{Url}
use youtube_ar.Sql.{Querier, equal, ident, bind, int, time, text, null_int64}
use youtube_ar.Sql.Meaning.{
  UrlRow, new_url, Tables, TextSearch, updated, returned_urls, sort_by, insert_by, update_row,
  null_time, is_null_value, row_url,
}
use youtube_ar.Sql.Postgres.{Postgres}
use youtube_ar.Store.{
  create_url, create_url_statement, get_url, get_url_statement, delete_url, delete_url_statement,
}
use youtube_ar.Store.Ids.{Ascending, Ascending-le, AreNumbered}

-- Whether GetURL's statement selects a row.
abbrev is_found : ℕ → UrlRow → Bool
is_found id r = r.url.id == id && is_null_value (null_time r.deleted_at)

-- Without an order the rows stay as they are.
insert-unordered : (r : UrlRow) (rows : List UrlRow) → insert_by (λ _ _. true) r rows ≡ r ∷ rows
insert-unordered r [] = refl
insert-unordered r (x ∷ rows) = refl

pub sort_by-unordered : (rows : List UrlRow) → sort_by (λ _ _. true) rows ≡ rows
sort_by-unordered [] = refl
sort_by-unordered (r ∷ rows) = rw (sort_by-unordered rows) (insert-unordered r rows)

returned_by_id :
    (ts : TextSearch) (now id : ℕ) (t : Tables)
    → returned_urls ts now (get_url_statement id) t ≡ map row_url (filter (is_found id) t.urls)
returned_by_id ts now id t = ap (map row_url) (sort_by-unordered _)

is_found-below : (id : ℕ) (r : UrlRow) → r.url.id < id → is_found id r ≡ false
is_found-below id r h = ground arith

filter-above :
    (id lo : ℕ) (rows : List UrlRow) (r : UrlRow)
    → Ascending lo rows id
    → filter (is_found id) (rows ++ r ∷ []) ≡ filter (is_found id) (r ∷ [])
filter-above id lo [] r h = refl
filter-above id lo (x ∷ rows) r (p, h) =
    let below = Ascending-le (x.url.id + 1) rows id h in
    rw (is_found-below id x (omega arith)) (filter-above id (x.url.id + 1) rows r h)

is_found_self : (r : UrlRow) → r.deleted_at ≡ none → is_found r.url.id r ≡ true
is_found_self r h = rw (h, ==_refl r.url.id) refl

filter_self : (r : UrlRow) → r.deleted_at ≡ none → filter (is_found r.url.id) (r ∷ []) ≡ r ∷ []
filter_self r h = rw (is_found_self r h) refl

-- The row that CreateURL's statement inserts.
abbrev new_row : ℕ → ℕ → Url → UrlRow
new_row now id u = record {
  url = new_url now id (("url", bind (text u.url)) ∷ ("retries", bind (null_int64 u.retries)) ∷ []);
  deleted_at = none;
}

-- What DeleteURL's statement does to a row.
abbrev deleted_row : TextSearch → ℕ → ℕ → ℕ → UrlRow → UrlRow
deleted_row ts now at id =
    update_row ts now (("deleted_at", bind (time at)) ∷ []) (equal (ident "id") (bind (int id)))

cons_nil : (v : Url) → ¬ (v ∷ [] ≡ [])
cons_nil v h = cc

none-ne-some : (v : Url) → ¬ (none ≡ some v)
none-ne-some v h = cc

returned_after_insert :
    (ts : TextSearch) (now now' : ℕ) (u : Url) (t : Tables)
    → AreNumbered t
    → returned_urls ts now'
        (get_url_statement t.next_id)
        (updated ts now (create_url_statement u) t)
      ≡ returned_urls ts now (create_url_statement u) t
returned_after_insert ts now now' u t numbered =
    returned_by_id ts now' t.next_id (updated ts now (create_url_statement u) t)
    ∙ ap (map row_url) (
        filter-above t.next_id 1 t.urls (new_row now t.next_id u) numbered
        ∙ filter_self (new_row now t.next_id u) refl)

is_deleted :
    (now at id : ℕ) (ts : TextSearch) (r : UrlRow)
    → is_found id (deleted_row ts now at id r) ≡ false
is_deleted now at id ts r = ground arith

filter-deleted :
    (now at id : ℕ) (ts : TextSearch) (rows : List UrlRow)
    → filter (is_found id) (map (deleted_row ts now at id) rows) ≡ []
filter-deleted now at id ts [] = refl
filter-deleted now at id ts (r ∷ rows) =
    rw (is_deleted now at id ts r) (filter-deleted now at id ts rows)

module _ (db : Querier) (pg : Postgres db) where
  -- Where the ids are numbered, the url that CreateURL returns is the one that GetURL returns for its
  -- id next: with every column as it was returned, or GetURL fails, but not for want of a row.
  pub get_url-create_url :
      (ctx ctx' : Context) (u v : Url) (c : db.Conn)
      → AreNumbered (pg.tables c)
      → (create_url db ctx u c).0 ≡ ok v
      → let found = (get_url db ctx' v.id (create_url db ctx u c).1).0 in
        (found ≡ ok v) ⊎ ((e : GoError) × (found ≡ err e) × (e ≢ no_rows))
  unfolding create_url get_url
  get_url-create_url ctx ctx' u v c numbered h =
      let (head, after) = pg.query_url_ok ctx (create_url_statement u) c v h in
      let same = some-injective _ _ head in
      let c' = (db.query_url ctx (create_url_statement u) c).1 in
      let rows : returned_urls pg.search (pg.clock c') (get_url_statement v.id) (pg.tables c')
          ≡ v ∷ [] =
        ap (returned_urls pg.search (pg.clock c') (get_url_statement v.id)) after
        ∙ ap
            (λ (x : Url).
              returned_urls pg.search (pg.clock c') (get_url_statement x.id)
                (updated pg.search (pg.clock c) (create_url_statement u) (pg.tables c)))
            (sym same)
        ∙ returned_after_insert pg.search (pg.clock c) (pg.clock c') u (pg.tables c) numbered
        ∙ ap (λ x. x ∷ []) same in
      elim (Result-cases (db.query_url ctx' (get_url_statement v.id) c').0) [
        | inl (x, k) ↦
            let first =
              sym (pg.query_url_ok ctx' (get_url_statement v.id) c' x k).0 ∙ ap head? rows in
            inl (k ∙ ap ok (some-injective _ _ first))
        | inr (e, k) ↦
            inr (e, k, λ n. cons_nil v (sym rows ∙ pg.query_url_no_rows ctx' _ c' (k ∙ ap err n)))
      ]

  -- After a DeleteURL that succeeds, GetURL finds no url with the id, whatever rows there are.
  pub get_url-delete_url :
      (ctx ctx' : Context) (at id : ℕ) (c : db.Conn) (v : Url)
      → (delete_url db at ctx id c).0 ≡ ok tt
      → (get_url db ctx' id (delete_url db at ctx id c).1).0 ≢ ok v
  unfolding delete_url get_url
  get_url-delete_url ctx ctx' at id c v h k =
      let c' = (db.exec_context ctx (delete_url_statement at id) c).1 in
      let rows : returned_urls pg.search (pg.clock c') (get_url_statement id) (pg.tables c') ≡ [] =
        ap (returned_urls pg.search (pg.clock c') (get_url_statement id))
          (pg.exec_ok ctx (delete_url_statement at id) c h)
        ∙ returned_by_id pg.search (pg.clock c') id
            (updated pg.search (pg.clock c) (delete_url_statement at id) (pg.tables c))
        ∙ ap (map row_url) (filter-deleted (pg.clock c) at id pg.search (pg.tables c).urls) in
      none-ne-some v (ap head? (sym rows) ∙ (pg.query_url_ok ctx' (get_url_statement id) c' v k).0)
