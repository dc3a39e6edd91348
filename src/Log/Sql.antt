-- ===== src/Log/Sql.antt =====
-- api/log/sql/sql.go: what the hooks of the database driver log. The package yansal/sql/hooks calls them
-- after each operation.
use youtube_ar.Base.{String, List, [], ◌∷◌, ◌++◌, Option, none, some, GoError}
use youtube_ar.Log.{Field, Entry, string, error}

-- What a hook is told of an operation with a query, and of one without.
pub record QueryInfo : Type 0 where
  pub query : String
  pub duration : String
  pub error : Option GoError

pub record Info : Type 0 where
  pub duration : String
  pub error : Option GoError

-- `if info.Err != nil { fields = append(fields, …) }`
abbrev with_error : Option GoError → List Field → List Field
with_error none fields = fields
with_error (some e) fields = fields ++ error "error" e ∷ []

abbrev query_entry : String → QueryInfo → Entry
query_entry msg info = record {
  msg = msg;
  fields = with_error info.error (string "query" info.query ∷ string "duration" info.duration ∷ []);
}

abbrev info_entry : String → Info → Entry
info_entry msg info = record {
  msg = msg;
  fields = with_error info.error (string "duration" info.duration ∷ []);
}

unfoldable pub exec_hook : QueryInfo → Entry
exec_hook = query_entry "sql exec"

unfoldable pub query_hook : QueryInfo → Entry
query_hook = query_entry "sql query"

unfoldable pub begin_hook : Info → Entry
begin_hook = info_entry "sql begin"

unfoldable pub commit_hook : Info → Entry
commit_hook = info_entry "sql commit"

unfoldable pub rollback_hook : Info → Entry
rollback_hook = info_entry "sql rollback"
