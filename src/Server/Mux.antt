-- ===== src/Server/Mux.antt =====
-- api/server/mux.go: a router over path patterns.
pub mod Dispatch
use youtube_ar.Base.{ℕ, List, [], ◌∷◌, ◌++◌, Option, none, some, Bool, true, false, if◌then◌else◌}
use youtube_ar.Server.Http.{Method, Write, status_text, http_error}

-- `P` is the type of compiled patterns, with FindStringSubmatch; `same_method` compares methods; a
-- handler is given the match and gives what it writes.
module _ {P : Type 0} (find_submatch : P → List ℕ → Option (List (List ℕ)))
    (same_method : Method → Method → Bool) (H : Type 0) where
  pub record Route : Type 0 where
    pub method : Method
    pub path : P
    pub handler : H

  unfoldable pub handle_func : Method → P → H → List Route → List Route
  handle_func method path handler routes =
      routes ++ record { method = method; path = path; handler = handler } ∷ []

  -- What the loop finds: a route's handler with its match, or whether any path has matched.
  pub data Found : Type 0 where
    route : H → List (List ℕ) → Found
    nothing : (has_match : Bool) → Found

  unfoldable pub find : Method → List ℕ → Bool → List Route → Found
  find method path has_match [] = nothing has_match
  find method path has_match (r ∷ routes) =
      let skip = find method path has_match routes in
      let wrong_method = find method path true routes in
      elim (find_submatch r.path path) [
        | none ↦ skip
        | some match ↦ if same_method r.method method then route r.handler match else wrong_method
      ]

  -- ServeHTTP: a handler runs with its match, or an error is written.
  pub data Served : Type 0 where
    handled : H → List (List ℕ) → Served
    error : ℕ → List Write → Served

  abbrev pub served : Found → Served
  served (route h match) = handled h match
  served (nothing true) = error 405 (http_error (status_text 405) 405)
  served (nothing false) = error 404 (http_error (status_text 404) 404)

  unfoldable pub serve_http : List Route → Method → List ℕ → Served
  unfolding find
  serve_http routes method path = served (find method path false routes)
