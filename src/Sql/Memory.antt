-- ===== src/Sql/Memory.antt =====
-- Tables in memory, which meet the assumptions on the database.
use youtube_ar.Base.{
  List, [], ◌∷◌, Option, none, some, Bool, true, ok, err, GoError, no_rows, canceled, failed, head?,
  Context, live, done, ◌≡◌, ◌≢◌, refl, arith, if◌then◌else◌, M, ◌==◌,
}
use youtube_ar.Sql.{Querier, Statement}
use youtube_ar.Sql.Meaning.{
  Tables, TextSearch, updated, returned_urls, returned_logs, returned_videos,
}
use youtube_ar.Sql.Postgres.{Postgres}

pub record Memory : Type 0 where
  pub tables : Tables
  pub base : Tables

-- Every row matches a search, and the first one ranks highest.
abbrev pub first_search : TextSearch
first_search = record { matches = λ q r. true; rank = λ q r. if r.url.id == 1 then 1 else 0 }

abbrev pub applied : Statement → Memory → Memory
applied st m = record m { tables = updated first_search 7 st m.tables }

abbrev pub exec : Context → Statement → M Memory (Unit {0})
exec live st m = (ok tt, applied st m)
exec (done e) st m = (err canceled, m)

-- The first of the rows, after the statement's effect.
abbrev pub scan_one : {A : Type 0} → Option A → Statement → M Memory A
scan_one none st m = (err no_rows, m)
scan_one (some a) st m = (ok a, applied st m)

abbrev pub query_one : {A : Type 0} → (Tables → List A) → Context → Statement → M Memory A
query_one rows live st m = scan_one (head? (rows m.tables)) st m
query_one rows (done e) st m = (err canceled, m)

abbrev pub query_all : {A : Type 0} → (Tables → List A) → Context → Statement → M Memory (List A)
query_all rows live st m = (ok (rows m.tables), applied st m)
query_all rows (done e) st m = (err canceled, applied st m)

-- `broken` says whether a commit fails.
abbrev pub memory : (broken : Bool) → Querier
memory broken = record {
  Conn = Memory;
  exec_context = exec;
  query_url = λ ctx st. query_one (returned_urls first_search 7 st) ctx st;
  query_urls = λ ctx st. query_all (returned_urls first_search 7 st) ctx st;
  query_logs = λ ctx st. query_all (returned_logs first_search st) ctx st;
  query_youtube_video = λ ctx st. query_one (returned_videos 7 st) ctx st;
  begin_tx = λ ctx m. (ok tt, record m { base = m.tables });
  commit =
      λ m. if broken then (err (failed "commit"), record m { tables = m.base }) else (ok tt, m);
  rollback = λ m. (ok tt, record m { tables = m.base });
}

head?-eq-none : {A : Type 0} (l : List A) → head? l ≡ none → l ≡ []
head?-eq-none [] h = refl
head?-eq-none (x ∷ l) h = absurd (ground arith)

pub exec_ok :
    (ctx : Context) (st : Statement) (m : Memory)
    → (exec ctx st m).0 ≡ ok tt
    → (exec ctx st m).1.tables ≡ updated first_search 7 st m.tables
exec_ok live st m h = refl
exec_ok (done e) st m h = cc

pub exec_err :
    (ctx : Context) (st : Statement) (m : Memory)
    → (exec ctx st m).0 ≢ ok tt
    → (exec ctx st m).1.tables ≡ m.tables
exec_err live st m h = absurd (h refl)
exec_err (done e) st m h = refl

scan_one_ok :
    {A : Type 0} (o : Option A) (st : Statement) (m : Memory) (a : A)
    → (scan_one o st m).0 ≡ ok a
    → (o ≡ some a) × ((scan_one o st m).1.tables ≡ updated first_search 7 st m.tables)
scan_one_ok none st m a h = absurd (ground arith)
scan_one_ok (some b) st m a h = (ground arith, refl)

pub query_one_ok :
    {A : Type 0} (rows : Tables → List A) (ctx : Context) (st : Statement) (m : Memory) (a : A)
    → (query_one rows ctx st m).0 ≡ ok a
    → (head? (rows m.tables) ≡ some a)
      × ((query_one rows ctx st m).1.tables ≡ updated first_search 7 st m.tables)
query_one_ok rows live st m a h = scan_one_ok (head? (rows m.tables)) st m a h
query_one_ok rows (done e) st m a h = absurd (ground arith)

scan_one_err :
    {A : Type 0} (o : Option A) (st : Statement) (m : Memory) (e : GoError)
    → (scan_one o st m).0 ≡ err e
    → (o ≡ none) × ((scan_one o st m).1.tables ≡ m.tables)
scan_one_err none st m e h = (refl, refl)
scan_one_err (some b) st m e h = absurd (ground arith)

pub query_one_err :
    {A : Type 0} (rows : Tables → List A) (ctx : Context) (st : Statement) (m : Memory)
    (e : GoError)
    → (query_one rows ctx st m).0 ≡ err e
    → (query_one rows ctx st m).1.tables ≡ m.tables
query_one_err rows live st m e h = (scan_one_err (head? (rows m.tables)) st m e h).1
query_one_err rows (done x) st m e h = refl

pub query_one_no_rows :
    {A : Type 0} (rows : Tables → List A) (ctx : Context) (st : Statement) (m : Memory)
    → (query_one rows ctx st m).0 ≡ err no_rows
    → rows m.tables ≡ []
query_one_no_rows rows live st m h =
    head?-eq-none (rows m.tables) (scan_one_err (head? (rows m.tables)) st m no_rows h).0
query_one_no_rows rows (done x) st m h = absurd (ground arith)

scan_one_base :
    {A : Type 0} (o : Option A) (st : Statement) (m : Memory) → (scan_one o st m).1.base ≡ m.base
scan_one_base none st m = refl
scan_one_base (some a) st m = refl

pub query_one_base :
    {A : Type 0} (rows : Tables → List A) (ctx : Context) (st : Statement) (m : Memory)
    → (query_one rows ctx st m).1.base ≡ m.base
query_one_base rows live st m = scan_one_base (head? (rows m.tables)) st m
query_one_base rows (done e) st m = refl

pub query_all_ok :
    {A : Type 0} (rows : Tables → List A) (ctx : Context) (st : Statement) (m : Memory) (l : List A)
    → (query_all rows ctx st m).0 ≡ ok l
    → l ≡ rows m.tables
query_all_ok rows live st m l h = ground arith
query_all_ok rows (done e) st m l h = absurd (ground arith)

pub query_all_reads :
    {A : Type 0} (rows : Tables → List A) (ctx : Context) (st : Statement) (m : Memory)
    → (query_all rows ctx st m).1.tables ≡ updated first_search 7 st m.tables
query_all_reads rows live st m = refl
query_all_reads rows (done e) st m = refl

unfoldable pub memory-Postgres : (broken : Bool) → Postgres (memory broken)
memory-Postgres broken = record {
  tables = λ m. m.tables;
  base = λ m. m.base;
  clock = λ m. 7;
  search = first_search;
  exec_ok = exec_ok;
  exec_err = exec_err;
  exec_done = λ e st c h. absurd (ground arith);
  query_url_ok = λ ctx st c u h. query_one_ok (returned_urls first_search 7 st) ctx st c u h;
  query_url_err = λ ctx st c e h. query_one_err (returned_urls first_search 7 st) ctx st c e h;
  query_url_no_rows = λ ctx st c h. query_one_no_rows (returned_urls first_search 7 st) ctx st c h;
  query_urls_ok = λ ctx st c us h. query_all_ok (returned_urls first_search 7 st) ctx st c us h;
  query_urls_reads = λ ctx st c. query_all_reads (returned_urls first_search 7 st) ctx st c;
  query_logs_ok = λ ctx st c ls h. query_all_ok (returned_logs first_search st) ctx st c ls h;
  query_logs_reads = λ ctx st c. query_all_reads (returned_logs first_search st) ctx st c;
  query_video_ok = λ ctx st c v h. query_one_ok (returned_videos 7 st) ctx st c v h;
  query_video_err = λ ctx st c e h. query_one_err (returned_videos 7 st) ctx st c e h;
  query_video_no_rows = λ ctx st c h. query_one_no_rows (returned_videos 7 st) ctx st c h;
  query_url_base = λ ctx st c. query_one_base (returned_urls first_search 7 st) ctx st c;
  query_video_base = λ ctx st c. query_one_base (returned_videos 7 st) ctx st c;
  begin_ok = λ ctx c h. (refl, refl);
  begin_err = λ ctx c e h. refl;
  commit_ok = λ c h. ground arith;
  commit_err = λ c e h. (ground arith, ground arith);
  rollback_any = λ c. refl;
}
