-- ===== src/Sql/Postgres.antt =====
-- What the program relies on in PostgreSQL and the packages nest and scan, of a `Querier`: a
-- statement that succeeds has its documented meaning, one that fails changes nothing, a call on a
-- context that is done fails, and a transaction is atomic.
use youtube_ar.Base.{ℕ, ◌≡◌, ◌≢◌, some, [], head?, List, GoError, ok, err, no_rows, Context, done}
use youtube_ar.Sql.{Querier, Statement}
use youtube_ar.Sql.Meaning.{
  Tables, TextSearch, updated, returned_urls, returned_logs, returned_videos,
}
use youtube_ar.Model.{Url, YoutubeVideo, Log}

pub record Postgres (db : Querier) : Type 0 where
  -- The tables as the connection sees them, and those that a rollback goes back to.
  pub tables : db.Conn → Tables
  pub base : db.Conn → Tables
  pub clock : db.Conn → ℕ
  pub search : TextSearch
  pub exec_ok :
      (ctx : Context) (st : Statement) (c : db.Conn)
      → (db.exec_context ctx st c).0 ≡ ok tt
      → tables (db.exec_context ctx st c).1 ≡ updated search (clock c) st (tables c)
  pub exec_err :
      (ctx : Context) (st : Statement) (c : db.Conn)
      → (db.exec_context ctx st c).0 ≢ ok tt
      → tables (db.exec_context ctx st c).1 ≡ tables c
  pub exec_done :
      (e : GoError) (st : Statement) (c : db.Conn) → (db.exec_context (done e) st c).0 ≢ ok tt
  pub query_url_ok :
      (ctx : Context) (st : Statement) (c : db.Conn) (u : Url)
      → (db.query_url ctx st c).0 ≡ ok u
      → (head? (returned_urls search (clock c) st (tables c)) ≡ some u)
        × (tables (db.query_url ctx st c).1 ≡ updated search (clock c) st (tables c))
  pub query_url_err :
      (ctx : Context) (st : Statement) (c : db.Conn) (e : GoError)
      → (db.query_url ctx st c).0 ≡ err e
      → tables (db.query_url ctx st c).1 ≡ tables c
  pub query_url_no_rows :
      (ctx : Context) (st : Statement) (c : db.Conn)
      → (db.query_url ctx st c).0 ≡ err no_rows
      → returned_urls search (clock c) st (tables c) ≡ []
  pub query_urls_ok :
      (ctx : Context) (st : Statement) (c : db.Conn) (us : List Url)
      → (db.query_urls ctx st c).0 ≡ ok us
      → us ≡ returned_urls search (clock c) st (tables c)
  pub query_urls_reads :
      (ctx : Context) (st : Statement) (c : db.Conn)
      → tables (db.query_urls ctx st c).1 ≡ updated search (clock c) st (tables c)
  pub query_logs_ok :
      (ctx : Context) (st : Statement) (c : db.Conn) (ls : List Log)
      → (db.query_logs ctx st c).0 ≡ ok ls
      → ls ≡ returned_logs search st (tables c)
  pub query_logs_reads :
      (ctx : Context) (st : Statement) (c : db.Conn)
      → tables (db.query_logs ctx st c).1 ≡ updated search (clock c) st (tables c)
  pub query_video_ok :
      (ctx : Context) (st : Statement) (c : db.Conn) (v : YoutubeVideo)
      → (db.query_youtube_video ctx st c).0 ≡ ok v
      → (head? (returned_videos (clock c) st (tables c)) ≡ some v)
        × (tables (db.query_youtube_video ctx st c).1 ≡ updated search (clock c) st (tables c))
  pub query_video_err :
      (ctx : Context) (st : Statement) (c : db.Conn) (e : GoError)
      → (db.query_youtube_video ctx st c).0 ≡ err e
      → tables (db.query_youtube_video ctx st c).1 ≡ tables c
  pub query_video_no_rows :
      (ctx : Context) (st : Statement) (c : db.Conn)
      → (db.query_youtube_video ctx st c).0 ≡ err no_rows
      → returned_videos (clock c) st (tables c) ≡ []
  -- Within a transaction its base stays.
  pub query_url_base :
      (ctx : Context) (st : Statement) (c : db.Conn) → base (db.query_url ctx st c).1 ≡ base c
  pub query_video_base :
      (ctx : Context) (st : Statement) (c : db.Conn)
      → base (db.query_youtube_video ctx st c).1 ≡ base c
  pub begin_ok :
      (ctx : Context) (c : db.Conn)
      → (db.begin_tx ctx c).0 ≡ ok tt
      → (tables (db.begin_tx ctx c).1 ≡ tables c) × (base (db.begin_tx ctx c).1 ≡ tables c)
  pub begin_err :
      (ctx : Context) (c : db.Conn) (e : GoError)
      → (db.begin_tx ctx c).0 ≡ err e
      → tables (db.begin_tx ctx c).1 ≡ tables c
  pub commit_ok : (c : db.Conn) → (db.commit c).0 ≡ ok tt → tables (db.commit c).1 ≡ tables c
  pub commit_err :
      (c : db.Conn) (e : GoError)
      → (db.commit c).0 ≡ err e
      → (tables (db.commit c).1 ≡ base c) × (base (db.commit c).1 ≡ base c)
  pub rollback_any : (c : db.Conn) → tables (db.rollback c).1 ≡ base c
