-- ===== src/Sql.antt =====
-- The statements that api/store builds with the package yansal/sql/build, as the calls of that
-- package, and the interface nest.Querier through which they are run. Neither package is part of
-- the repository: rendering and running a statement is the parameter `Querier`.
pub mod Meaning
pub mod Postgres
pub mod Memory
use youtube_ar.Base.{ℕ, String, List, Option, none, some, M, Context, if◌then◌else◌}
use youtube_ar.Model.{Url, YoutubeVideo, Log, NullString, NullInt64}

-- A value that is bound to a statement or found in a row.
pub data Value : Type 0 where
  null : Value
  int : ℕ → Value
  text : String → Value
  bytes : String → Value
  time : ℕ → Value
  texts : List String → Value

abbrev pub null_string : NullString → Value
null_string s = if s.valid then text s.string else null

abbrev pub null_int64 : NullInt64 → Value
null_int64 n = if n.valid then int n.int64 else null

abbrev pub null_bytes : Option String → Value
null_bytes none = null
null_bytes (some b) = bytes b

-- Expressions, each by the method calls that build it: `e.And(f).IsNull()` is `is_null (and_also e f)`.
pub data Expr : Type 0 where
  ident : String → Expr
  bind : Value → Expr
  literal : String → Expr
  call : String → Expr → Expr
  call_two : String → Expr → Expr → Expr
  and_also : Expr → Expr → Expr
  equal : Expr → Expr → Expr
  is_null : Expr → Expr
  is_in : Expr → Expr → Expr
  less_than : Expr → Expr → Expr
  op : Expr → String → Expr → Expr

pub data Column : Type 0 where
  plain : String → Column
  expr_as : Expr → String → Column

pub data From : Type 0 where
  table : String → From
  call_as : Expr → String → From

-- Every `OrderExpr` of the program is descending.
pub record Select : Type 0 where
  pub columns : List Column
  pub from : List From
  pub condition : Expr
  pub order_by_desc : List Expr
  pub limit : Option Expr
  pub offset : Option Expr

pub data Statement : Type 0 where
  insert_into : String → List (String × Expr) → (returning : List String) → Statement
  update : String → List (String × Expr) → (condition : Expr) → Statement
  select : Select → Statement

-- A connection pool, and the transactions that begin on it. `Conn` is the state of the database as
-- the connection in use sees it. A query is joined with the call of package scan that reads its
-- rows: `query_url` with scan.Struct, which takes the first row, and `query_urls` with
-- scan.StructSlice, which takes all.
pub record Querier : Type 1 where
  pub Conn : Type 0
  pub exec_context : Context → Statement → M Conn (Unit {0})
  pub query_url : Context → Statement → M Conn Url
  pub query_urls : Context → Statement → M Conn (List Url)
  pub query_logs : Context → Statement → M Conn (List Log)
  pub query_youtube_video : Context → Statement → M Conn YoutubeVideo
  pub begin_tx : Context → M Conn (Unit {0})
  pub commit : M Conn (Unit {0})
  pub rollback : M Conn (Unit {0})
