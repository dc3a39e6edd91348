-- ===== src/Sql/Meaning.antt =====
-- The documented meaning of the statements that api/store builds, over the two tables that
-- api/schema.sql creates. Nothing of the program is defined here: the meaning serves to state what
-- the program relies on, in `Postgres`. A chain such as `e.And(f).IsNull()` is rendered without
-- parentheses, so the last test is on `f` alone.
use youtube_ar.Base.{
  ℕ, String, List, [], ◌∷◌, ◌++◌, ◌+◌, ◌-◌, Option, none, some, Bool, true, false, ◌&&◌, ◌||◌,
  str_eq, ◌==◌, ltb, if◌then◌else◌, filter, map, take, drop,
}
use youtube_ar.Model.{Url, Log, YoutubeVideo, NullString, NullInt64, no_string, no_int64}
use youtube_ar.Sql.{
  Statement, insert_into, update, select, Select, Expr, ident, bind, literal, call, call_two, From,
  table, call_as, Column, plain, expr_as, and_also, equal, is_null, is_in, less_than, op, Value,
  null, int, text, bytes, time, texts, null_string, null_int64, null_bytes,
}

-- A row of the table urls: what the program scans, and the column that it only tests.
pub record UrlRow : Type 0 where
  pub url : Url
  pub deleted_at : Option ℕ

pub record Tables : Type 0 where
  pub urls : List UrlRow
  pub next_id : ℕ
  pub youtube_videos : List YoutubeVideo
  pub next_video_id : ℕ

-- Full-text search: whether a row's words satisfy a web search, and its rank.
pub record TextSearch : Type 0 where
  pub matches : String → UrlRow → Bool
  pub rank : String → UrlRow → ℕ

abbrev pub null_time : Option ℕ → Value
null_time none = null
null_time (some t) = time t

-- A column of a row, by its name.
abbrev pub column : String → UrlRow → Value
column name r =
    if str_eq name "id"
    then int r.url.id
    else if str_eq name "url"
    then text r.url.url
    else if str_eq name "status"
    then text r.url.status
    else if str_eq name "logs"
    then texts r.url.logs
    else if str_eq name "error"
    then null_string r.url.error
    else if str_eq name "file"
    then null_string r.url.file
    else if str_eq name "retries"
    then null_int64 r.url.retries
    else if str_eq name "oembed"
    then null_bytes r.url.oembed
    else if str_eq name "deleted_at"
    then null_time r.deleted_at
    else null

abbrev pub array_append : Value → Value → Value
array_append (texts l) (text s) = texts (l ++ s ∷ [])
array_append v _ = v

abbrev pub eval : UrlRow → Expr → Value
eval r (ident name) = column name r
eval r (bind v) = v
eval r (literal s) = text s
eval r (call_two name a b) =
    if str_eq name "array_append" then array_append (eval r a) (eval r b) else null
eval r _ = null

-- Tests between values. A comparison with null is not true.
abbrev pub equal_values : Value → Value → Bool
equal_values (int a) (int b) = a == b
equal_values (text a) (text b) = str_eq a b
equal_values _ _ = false

-- Integers are in two's complement, so their order is that of the patterns shifted by 2 ^ 63.
abbrev pub signed : ℕ → ℕ
signed n = if ltb n 9223372036854775808 then n + 9223372036854775808 else n - 9223372036854775808

abbrev pub less_values : Value → Value → Bool
less_values (int a) (int b) = ltb (signed a) (signed b)
less_values _ _ = false

abbrev pub is_null_value : Value → Bool
is_null_value null = true
is_null_value _ = false

abbrev pub member : String → List String → Bool
member s [] = false
member s (t ∷ more) = str_eq s t || member s more

abbrev pub in_values : Value → Value → Bool
in_values (text s) (texts l) = member s l
in_values _ _ = false

-- The web search that the FROM clause names `tsquery`.
abbrev pub search_text : List From → String
search_text [] = ""
search_text (call_as (call name (bind (text q))) alias ∷ more) = q
search_text (_ ∷ more) = search_text more

module _ (ts : TextSearch) where
  -- Whether a row is selected, under the web search `q`.
  abbrev pub holds : String → UrlRow → Expr → Bool
  holds q r (equal a b) = equal_values (eval r a) (eval r b)
  holds q r (is_null (and_also e a)) = holds q r e && is_null_value (eval r a)
  holds q r (is_null a) = is_null_value (eval r a)
  holds q r (is_in (and_also e a) b) = holds q r e && in_values (eval r a) (eval r b)
  holds q r (less_than (and_also e a) b) = holds q r e && less_values (eval r a) (eval r b)
  holds q r (op (and_also e a) name b) = (holds q r e && str_eq name "@@") && ts.matches q r
  holds q r (and_also e f) = holds q r e && holds q r f
  holds q r _ = false

abbrev pub to_string : Value → NullString
to_string (text s) = record { valid = true; string = s }
to_string _ = no_string

-- `set name = value` on a row.
abbrev pub assign : String → Value → UrlRow → UrlRow
assign name (text s) r =
    if str_eq name "status"
    then record r { url = record (r.url) { status = s } }
    else if str_eq name "file"
    then record r { url = record (r.url) { file = to_string (text s) } }
    else if str_eq name "error"
    then record r { url = record (r.url) { error = to_string (text s) } }
    else if str_eq name "url"
    then record r { url = record (r.url) { url = s } }
    else r
assign name null r =
    if str_eq name "file"
    then record r { url = record (r.url) { file = no_string } }
    else if str_eq name "error"
    then record r { url = record (r.url) { error = no_string } }
    else if str_eq name "oembed"
    then record r { url = record (r.url) { oembed = none } }
    else r
assign name (texts l) r =
    if str_eq name "logs" then record r { url = record (r.url) { logs = l } } else r
assign name (bytes b) r =
    if str_eq name "oembed" then record r { url = record (r.url) { oembed = some b } } else r
assign name (int n) r =
    if str_eq name "id"
    then record r { url = record (r.url) { id = n } }
    else if str_eq name "retries"
    then record r { url = record (r.url) { retries = record { valid = true; int64 = n } } }
    else r
assign name (time t) r = if str_eq name "deleted_at" then record r { deleted_at = some t } else r

-- The assignments read the old row.
abbrev pub assign_all : UrlRow → List (String × Expr) → UrlRow → UrlRow
assign_all old [] r = r
assign_all old ((name, e) ∷ more) r = assign_all old more (assign name (eval old e) r)

-- The trigger urls_update.
abbrev pub touch : ℕ → UrlRow → UrlRow
touch now r = record r { url = record (r.url) { updated_at = now } }

abbrev pub insert_value : String → List (String × Expr) → Value
insert_value name [] = null
insert_value name ((column, bind v) ∷ more) =
    if str_eq name column then v else insert_value name more
insert_value name (_ ∷ more) = insert_value name more

abbrev pub as_text : Value → String
as_text (text s) = s
as_text _ = ""

abbrev pub as_texts : Value → List String
as_texts (texts l) = l
as_texts _ = []

abbrev pub as_int : Value → NullInt64
as_int (int n) = record { valid = true; int64 = n }
as_int _ = no_int64

-- A column's value in an insert, or its default.
abbrev pub int_or : ℕ → Value → ℕ
int_or default (int n) = n
int_or default _ = default

abbrev pub text_or : String → Value → String
text_or default (text s) = s
text_or default _ = default

-- A row with the defaults of the table's columns.
abbrev pub new_url : ℕ → ℕ → List (String × Expr) → Url
new_url now id values = record {
  id = int_or id (insert_value "id" values);
  url = as_text (insert_value "url" values);
  created_at = now;
  updated_at = now;
  status = text_or "pending" (insert_value "status" values);
  error = to_string (insert_value "error" values);
  file = to_string (insert_value "file" values);
  retries = as_int (insert_value "retries" values);
  logs = [];
  oembed = none;
}

abbrev pub new_video : ℕ → ℕ → List (String × Expr) → YoutubeVideo
new_video now id values = record {
  id = int_or id (insert_value "id" values);
  youtube_id = as_text (insert_value "youtube_id" values);
  created_at = now;
}

abbrev pub update_row : TextSearch → ℕ → List (String × Expr) → Expr → UrlRow → UrlRow
update_row ts now values condition r =
    if holds ts "" r condition then touch now (assign_all r values r) else r

-- The tables after a statement.
abbrev pub updated : TextSearch → ℕ → Statement → Tables → Tables
updated ts now (insert_into name values _) t =
    if str_eq name "urls"
    then record t {
      urls = t.urls ++ record { url = new_url now t.next_id values; deleted_at = none } ∷ [];
      next_id = t.next_id + 1;
    }
    else if str_eq name "youtube_videos"
    then record t {
      youtube_videos = t.youtube_videos ++ new_video now t.next_video_id values ∷ [];
      next_video_id = t.next_video_id + 1;
    }
    else t
updated ts now (update name values condition) t =
    if str_eq name "urls"
    then record t { urls = map (update_row ts now values condition) t.urls }
    else t
updated ts now (select s) t = t

-- Sorting by an order in which rows are to come.
abbrev pub insert_by {ℓ} : {A : Type ℓ} → (A → A → Bool) → A → List A → List A
insert_by before x [] = x ∷ []
insert_by before x (y ∷ l) = if before x y then x ∷ y ∷ l else y ∷ insert_by before x l

abbrev pub sort_by {ℓ} : {A : Type ℓ} → (A → A → Bool) → List A → List A
sort_by before [] = []
sort_by before (x ∷ l) = insert_by before x (sort_by before l)

abbrev pub later_id : UrlRow → UrlRow → Bool
later_id r s = ltb s.url.id r.url.id

-- `order by id desc`, `order by ts_rank(tsv, tsquery) desc, id desc`, or none.
abbrev pub before : TextSearch → String → List Expr → UrlRow → UrlRow → Bool
before ts q [] r s = true
before ts q (ident name ∷ _) r s = if str_eq name "id" then later_id r s else true
before ts q (_ ∷ _) r s =
    ltb (ts.rank q s) (ts.rank q r) || (ts.rank q s == ts.rank q r && later_id r s)

abbrev pub limited {ℓ} : {A : Type ℓ} → Option Expr → List A → List A
limited (some (bind (int n))) l = take n l
limited _ l = l

abbrev pub shifted {ℓ} : {A : Type ℓ} → Option Expr → List A → List A
shifted (some (bind (int n))) l = drop n l
shifted _ l = l

-- The rows of a FROM clause, by its first table.
abbrev pub from_urls : List From → Tables → List UrlRow
from_urls (table name ∷ _) t = if str_eq name "urls" then t.urls else []
from_urls _ t = []

abbrev pub from_videos : List From → Tables → List YoutubeVideo
from_videos (table name ∷ _) t = if str_eq name "youtube_videos" then t.youtube_videos else []
from_videos _ t = []

-- The rows of the table urls that a select returns.
abbrev pub select_rows : TextSearch → Select → Tables → List UrlRow
select_rows ts s t =
    let q = search_text s.from in
    limited s.limit (
      sort_by (before ts q s.order_by_desc)
        (filter (λ r. holds ts q r s.condition) (from_urls s.from t)))

abbrev pub row_url : UrlRow → Url
row_url r = r.url

-- The columns that a select names.
abbrev pub names : List Column → List String
names [] = []
names (plain name ∷ more) = name ∷ names more
names (expr_as e alias ∷ more) = alias ∷ names more

-- What scan reads of a row: the columns that the statement gives back. Other fields stay as in the zero
-- value.
abbrev pub scanned : List String → Url → Url
scanned columns u = record {
  id = if member "id" columns then u.id else 0;
  url = if member "url" columns then u.url else "";
  created_at = if member "created_at" columns then u.created_at else 0;
  updated_at = if member "updated_at" columns then u.updated_at else 0;
  status = if member "status" columns then u.status else "";
  error = if member "error" columns then u.error else no_string;
  file = if member "file" columns then u.file else no_string;
  retries = if member "retries" columns then u.retries else no_int64;
  logs = if member "logs" columns then u.logs else [];
  oembed = if member "oembed" columns then u.oembed else none;
}

abbrev pub scanned_video : List String → YoutubeVideo → YoutubeVideo
scanned_video columns v = record {
  id = if member "id" columns then v.id else 0;
  youtube_id = if member "youtube_id" columns then v.youtube_id else "";
  created_at = if member "created_at" columns then v.created_at else 0;
}

-- `unnest(logs) as log`: a line for each log.
abbrev pub log_lines : List Column → UrlRow → List String
log_lines (expr_as (call f e) alias ∷ []) r =
    if str_eq f "unnest" && str_eq alias "log" then as_texts (eval r e) else []
log_lines _ r = []

-- The rows that a statement gives back, as scan reads them.
abbrev pub returned_urls : TextSearch → ℕ → Statement → Tables → List Url
returned_urls ts now (insert_into name values returning) t =
    if str_eq name "urls" then scanned returning (new_url now t.next_id values) ∷ [] else []
returned_urls ts now (update _ _ _) t = []
returned_urls ts now (select s) t =
    map (λ r. scanned (names s.columns) (row_url r)) (select_rows ts s t)

abbrev pub row_logs : List Column → List UrlRow → List Log
row_logs columns [] = []
row_logs columns (r ∷ more) =
    map (λ l. record { log = l }) (log_lines columns r) ++ row_logs columns more

abbrev pub returned_logs : TextSearch → Statement → Tables → List Log
returned_logs ts (select s) t = shifted s.offset (row_logs s.columns (select_rows ts s t))
returned_logs ts _ t = []

abbrev pub video_holds : YoutubeVideo → Expr → Bool
video_holds v (equal (ident name) (bind (text id))) =
    str_eq name "youtube_id" && str_eq v.youtube_id id
video_holds v _ = false

abbrev pub returned_videos : ℕ → Statement → Tables → List YoutubeVideo
returned_videos now (insert_into name values returning) t =
    if str_eq name "youtube_videos"
    then scanned_video returning (new_video now t.next_video_id values) ∷ []
    else []
returned_videos now (update _ _ _) t = []
returned_videos now (select s) t =
    map (scanned_video (names s.columns))
      (filter (λ v. video_holds v s.condition) (from_videos s.from t))
