-- ===== src/Query.antt =====
-- api/query/query.go: the parameters of a list request.
use youtube_ar.Base.{ℕ, String, List, [], ◌∷◌, Option, none, some, Result, ok, err}

-- The query for urls. `none` is a nil slice.
pub record UrlsQuery : Type 0 where
  pub cursor : ℕ
  pub limit : ℕ
  pub status : Option (List String)
  pub q : String

pub record LogsQuery : Type 0 where
  pub cursor : ℕ

abbrev pub default_limit : ℕ
default_limit = 10

-- What the program asks of query.Validate for one name of the query string.
pub data Param : Type 0 where
  int_param : String → Param
  string_param : String → Param
  strings_param : String → List String → Param

-- The map that query.Validate returns, by its lookups at each type: `none` where the name is absent.
pub record Validated : Type 0 where
  pub int_value : String → Option ℕ
  pub string_value : String → Option String
  pub strings_value : String → Option (List String)

-- A value of a lookup `v, ok := q[name]`, or what the variable holds if the name is absent.
abbrev pub or_default {ℓ} : {A : Type ℓ} → Option A → A → A
or_default none missing = missing
or_default (some v) missing = v

abbrev pub urls_params : List Param
urls_params =
    int_param "limit"
    ∷ int_param "cursor"
    ∷ strings_param "status" ("pending" ∷ "processing" ∷ "failure" ∷ "success" ∷ [])
    ∷ string_param "q"
    ∷ []

abbrev pub logs_params : List Param
logs_params = int_param "cursor" ∷ []

-- `Values` is url.Values; `validate` is the function of the package yansal/query.
module _ {Values : Type 0} (validate : Values → List Param → Result Validated) where
  unfoldable pub parse_urls : Values → Result UrlsQuery
  parse_urls v = elim (validate v urls_params) [
    | err e ↦ err e
    | ok q ↦ ok (record {
      cursor = or_default (q.int_value "cursor") 0;
      limit = or_default (q.int_value "limit") default_limit;
      status = q.strings_value "status";
      q = or_default (q.string_value "q") "";
    })
  ]

  unfoldable pub parse_logs : Values → Result LogsQuery
  parse_logs v = elim (validate v logs_params) [
    | err e ↦ err e
    | ok q ↦ ok (record { cursor = or_default (q.int_value "cursor") 0 })
  ]
