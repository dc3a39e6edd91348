-- ===== src/Store/Logs.antt =====
-- The log of a url, as it is appended to and as a client polls it with the cursor of the answer before.
pub mod Polling
use mathlib.Core.List.{append-nil, append_assoc}
use youtube_ar.Base.{
  filter-map, map-append, ℕ, zero, suc, ◌+◌, ◌-◌, ◌%◌, ◌≤◌, ◌<◌, String, List, [], ◌∷◌, ◌++◌, map,
  Bool, true, Result, ok, err, GoError, Context, ◌==◌, if◌then◌else◌, ◌≡◌, refl, sym, ap, ◌∙◌,
  arith, filter, drop, length, length-append, Result-cases, inl, inr, Bool-cases,
}
use youtube_ar.Model.{Log}
use youtube_ar.Query.{LogsQuery}
use youtube_ar.Resource.{new_logs}
use youtube_ar.Sql.{Querier, Expr, call, expr_as, call_two, ident, bind, text, equal, int}
use youtube_ar.Sql.Meaning.{
  UrlRow, Tables, TextSearch, updated, update_row, returned_logs, row_logs,
}
use youtube_ar.Sql.Postgres.{Postgres}
use youtube_ar.Store.{append_log, append_log_statement, list_logs, list_logs_statement}
use youtube_ar.Store.Lookup.{sort_by-unordered}

abbrev pub has_id : ℕ → UrlRow → Bool
has_id id r = r.url.id == id

-- The rows with an id are one row.
abbrev pub IsRow : ℕ → Tables → UrlRow → Type 0
IsRow id t r = filter (has_id id) t.urls ≡ r ∷ []

abbrev pub logs_of : UrlRow → List Log
logs_of r = map (λ l. record { log = l }) r.url.logs

abbrev pub logs_from : ℕ → LogsQuery
logs_from cursor = record { cursor = cursor }

returned_at :
    (ts : TextSearch) (id cursor : ℕ) (t : Tables) (r : UrlRow)
    → IsRow id t r
    → returned_logs ts (list_logs_statement id (logs_from cursor)) t ≡ drop cursor (logs_of r)
returned_at ts id cursor t r one =
    let columns = expr_as (call "unnest" (ident "logs")) "log" ∷ [] in
    ap (λ rows. drop cursor (row_logs columns rows))
      (sort_by-unordered (filter (has_id id) t.urls) ∙ one)
    ∙ ap (drop cursor) (append-nil (logs_of r))

-- AppendLog's statement on a row.
abbrev pub logged_row : TextSearch → ℕ → ℕ → Log → UrlRow → UrlRow
logged_row ts now id log =
    update_row ts now (("logs", call_two "array_append" (ident "logs") (bind (text log.log))) ∷ [])
      (equal (ident "id") (bind (int id)))

logged_row-id :
    (ts : TextSearch) (now id : ℕ) (log : Log) (r : UrlRow)
    → (logged_row ts now id log r).url.id ≡ r.url.id
logged_row-id ts now id log r = ground arith

pub logs_of-logged_row :
    (ts : TextSearch) (now id : ℕ) (log : Log) (r : UrlRow)
    → has_id id r ≡ true
    → logs_of (logged_row ts now id log r) ≡ logs_of r ++ log ∷ []
logs_of-logged_row ts now id log r e =
    rw e (map-append (λ s. record { log = s }) r.url.logs (log.log ∷ []))

pub filter-true :
    (id : ℕ) (rows : List UrlRow) (r : UrlRow)
    → filter (has_id id) rows ≡ r ∷ []
    → has_id id r ≡ true
filter-true id [] r h = cc
filter-true id (x ∷ rows) r h = elim (Bool-cases (has_id id x)) [
  | inl e ↦ ground (arith, e)
  | inr e ↦ filter-true id rows r (rw e at h)
]

module _ (db : Querier) (pg : Postgres db) (id : ℕ) where
  pub append_log-IsRow :
      (ctx : Context) (log : Log) (c : db.Conn) (r : UrlRow)
      → IsRow id (pg.tables c) r
      → (append_log db ctx id log c).0 ≡ ok tt
      → IsRow id
          (pg.tables (append_log db ctx id log c).1)
          (logged_row pg.search (pg.clock c) id log r)
  unfolding append_log
  append_log-IsRow ctx log c r one h =
      let f = logged_row pg.search (pg.clock c) id log in
      ap (λ t. filter (has_id id) t.urls) (pg.exec_ok ctx (append_log_statement id log) c h)
      ∙ filter-map (has_id id) f (pg.tables c).urls
          (λ x. ap (λ n. n == id) (logged_row-id pg.search (pg.clock c) id log x))
      ∙ ap (map f) one

  pub polled :
      (ctx : Context) (cursor : ℕ) (c : db.Conn) (r : UrlRow) (logs : List Log)
      → IsRow id (pg.tables c) r
      → (list_logs db ctx id (logs_from cursor) c).0 ≡ ok logs
      → logs ≡ drop cursor (logs_of r)
  unfolding list_logs
  polled ctx cursor c r logs one h =
      pg.query_logs_ok ctx (list_logs_statement id (logs_from cursor)) c logs h
      ∙ returned_at pg.search id cursor (pg.tables c) r one
