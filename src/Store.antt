-- ===== src/Store.antt =====
-- api/store/store.go: each operation builds one statement and runs it on the given connection.
pub mod Transaction
pub mod Rows
pub mod Ids
pub mod Lookup
pub mod Pages
pub mod Logs
use youtube_ar.Base.{
  ℕ, String, List, [], ◌∷◌, map, Option, none, some, str_eq, ◌==◌, if◌then◌else◌, M, Context,
}
use youtube_ar.Model.{Url, Log, YoutubeVideo, url_columns, youtube_video_columns}
use youtube_ar.Query.{UrlsQuery, LogsQuery}
use youtube_ar.Sql.{
  Querier, Statement, insert_into, update, select, Expr, ident, bind, literal, call, call_two,
  and_also, equal, is_null, is_in, less_than, op, plain, expr_as, table, call_as, int, text, time,
  texts, null_string, null_int64, null_bytes,
}

abbrev pub create_url_statement : Url → Statement
create_url_statement url =
    insert_into "urls"
      (("url", bind (text url.url)) ∷ ("retries", bind (null_int64 url.retries)) ∷ []) url_columns

abbrev pub lock_url_statement : Url → Statement
lock_url_statement url =
    update "urls" (("status", bind (text url.status)) ∷ []) (
      and_also (equal (ident "id") (bind (int url.id)))
        (equal (ident "status") (literal "pending")))

abbrev pub unlock_url_statement : Url → Statement
unlock_url_statement url =
    update "urls"
      (("status", bind (text url.status))
        ∷ ("file", bind (null_string url.file))
        ∷ ("error", bind (null_string url.error))
        ∷ [])
      (and_also (equal (ident "id") (bind (int url.id)))
        (equal (ident "status") (literal "processing")))

abbrev pub set_oembed_statement : Url → Statement
set_oembed_statement url =
    update "urls" (("oembed", bind (null_bytes url.oembed)) ∷ [])
      (equal (ident "id") (bind (int url.id)))

abbrev pub append_log_statement : ℕ → Log → Statement
append_log_statement url_id log =
    update "urls" (("logs", call_two "array_append" (ident "logs") (bind (text log.log))) ∷ [])
      (equal (ident "id") (bind (int url_id)))

abbrev pub get_url_statement : ℕ → Statement
get_url_statement id = select (record {
  columns = map plain url_columns;
  from = table "urls" ∷ [];
  condition = is_null (and_also (equal (ident "id") (bind (int id))) (ident "deleted_at"));
  order_by_desc = [];
  limit = none;
  offset = none;
})

abbrev pub delete_url_statement : ℕ → ℕ → Statement
delete_url_statement now id =
    update "urls" (("deleted_at", bind (time now)) ∷ []) (equal (ident "id") (bind (int id)))

-- `build.Bind(q.Status)`; the query is built only where the slice is not nil.
abbrev status_condition : Option (List String) → Expr → Expr
status_condition none e = e
status_condition (some status) e = is_in (and_also e (ident "status")) (bind (texts status))

abbrev cursor_condition : ℕ → Expr → Expr
cursor_condition cursor e =
    if cursor == 0 then e else less_than (and_also e (ident "id")) (bind (int cursor))

abbrev search_condition : String → Expr → Expr
search_condition q e =
    if str_eq q "" then e else op (and_also e (ident "tsv")) "@@" (ident "tsquery")

unfoldable pub build_list_urls : UrlsQuery → Statement
build_list_urls q = select (record {
  columns = map plain url_columns;
  from =
      if str_eq q.q ""
      then table "urls" ∷ []
      else table "urls" ∷ call_as (call "websearch_to_tsquery" (bind (text q.q))) "tsquery" ∷ [];
  condition =
      search_condition q.q
        (cursor_condition q.cursor (status_condition q.status (is_null (ident "deleted_at"))));
  order_by_desc =
      if str_eq q.q ""
      then ident "id" ∷ []
      else call_two "ts_rank" (ident "tsv") (ident "tsquery") ∷ ident "id" ∷ [];
  limit = some (bind (int q.limit));
  offset = none;
})

abbrev pub list_logs_statement : ℕ → LogsQuery → Statement
list_logs_statement url_id q = select (record {
  columns = expr_as (call "unnest" (ident "logs")) "log" ∷ [];
  from = table "urls" ∷ [];
  condition = equal (ident "id") (bind (int url_id));
  order_by_desc = [];
  limit = none;
  offset = some (bind (int q.cursor));
})

abbrev pub create_youtube_video_statement : YoutubeVideo → Statement
create_youtube_video_statement v =
    insert_into "youtube_videos" (("youtube_id", bind (text v.youtube_id)) ∷ [])
      youtube_video_columns

abbrev pub get_youtube_video_statement : String → Statement
get_youtube_video_statement youtube_id = select (record {
  columns = map plain ("id" ∷ "youtube_id" ∷ "created_at" ∷ []);
  from = table "youtube_videos" ∷ [];
  condition = equal (ident "youtube_id") (bind (text youtube_id));
  order_by_desc = [];
  limit = none;
  offset = none;
})

module _ (db : Querier) where
  -- The columns that the statement returns are written over the struct: all of its fields.
  unfoldable pub create_url : Context → Url → M db.Conn Url
  create_url ctx url = db.query_url ctx (create_url_statement url)

  unfoldable pub lock_url : Context → Url → M db.Conn (Unit {0})
  lock_url ctx url = db.exec_context ctx (lock_url_statement url)

  unfoldable pub unlock_url : Context → Url → M db.Conn (Unit {0})
  unlock_url ctx url = db.exec_context ctx (unlock_url_statement url)

  unfoldable pub set_oembed : Context → Url → M db.Conn (Unit {0})
  set_oembed ctx url = db.exec_context ctx (set_oembed_statement url)

  unfoldable pub append_log : Context → ℕ → Log → M db.Conn (Unit {0})
  append_log ctx url_id log = db.exec_context ctx (append_log_statement url_id log)

  unfoldable pub get_url : Context → ℕ → M db.Conn Url
  get_url ctx id = db.query_url ctx (get_url_statement id)

  -- `now` is time.Now() at the call.
  unfoldable pub delete_url : (now : ℕ) → Context → ℕ → M db.Conn (Unit {0})
  delete_url now ctx id = db.exec_context ctx (delete_url_statement now id)

  unfoldable pub list_urls : Context → UrlsQuery → M db.Conn (List Url)
  unfolding build_list_urls
  list_urls ctx q = db.query_urls ctx (build_list_urls q)

  unfoldable pub list_logs : Context → ℕ → LogsQuery → M db.Conn (List Log)
  list_logs ctx url_id q = db.query_logs ctx (list_logs_statement url_id q)

  unfoldable pub create_youtube_video : Context → YoutubeVideo → M db.Conn YoutubeVideo
  create_youtube_video ctx v = db.query_youtube_video ctx (create_youtube_video_statement v)

  unfoldable pub get_youtube_video_by_youtube_id : Context → String → M db.Conn YoutubeVideo
  get_youtube_video_by_youtube_id ctx youtube_id =
      db.query_youtube_video ctx (get_youtube_video_statement youtube_id)
