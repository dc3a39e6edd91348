-- ===== src/Server/Routes.antt =====
-- The routes that api/server.go registers.
pub mod Paths
use youtube_ar.Base.{
  ℕ, List, [], ◌∷◌, Option, none, some, Bool, true, false, codes, leb, ◌&&◌, str_eq, if◌then◌else◌,
  strip_prefix,
}
use youtube_ar.Server.Http.{Method, get, post, delete, options, other}
use youtube_ar.Server.Mux.{Route, handle_func, Served, serve_http}

abbrev pub same_method : Method → Method → Bool
same_method get get = true
same_method post post = true
same_method delete delete = true
same_method options options = true
same_method (other a) (other b) = str_eq a b
same_method _ _ = false

-- `^/urls$`, and `^/urls/(\d+)SUFFIX$`
pub data Pattern : Type 0 where
  urls : Pattern
  url_id : (suffix : List ℕ) → Pattern

abbrev pub is_digit : ℕ → Bool
is_digit c = leb 48 c && leb c 57

-- The longest run of digits at the left, and the rest.
unfoldable pub span_digits : List ℕ → List ℕ × List ℕ
span_digits [] = ([], [])
span_digits (c ∷ s) =
    let (ds, rest) = span_digits s in if is_digit c then (c ∷ ds, rest) else ([], c ∷ s)

abbrev pub same_text : List ℕ → List ℕ → Bool
same_text s t = elim (strip_prefix s t) [ some [] ↦ true | _ ↦ false ]

-- The whole match and its group, where there is a digit and the suffix ends the path.
abbrev pub id_match : List ℕ → List ℕ → List ℕ × List ℕ → Option (List (List ℕ))
id_match suffix path ([], rest) = none
id_match suffix path (d ∷ ds, rest) =
    if same_text suffix rest then some (path ∷ (d ∷ ds) ∷ []) else none

abbrev pub after_urls : List ℕ → List ℕ → Option (List ℕ) → Option (List (List ℕ))
after_urls suffix path none = none
after_urls suffix path (some rest) = id_match suffix path (span_digits rest)

-- FindStringSubmatch
unfoldable pub find_submatch : Pattern → List ℕ → Option (List (List ℕ))
unfolding span_digits strip_prefix
find_submatch urls path = if same_text (codes "/urls") path then some (path ∷ []) else none
find_submatch (url_id suffix) path = after_urls suffix path (strip_prefix (codes "/urls/") path)

pub data Endpoint : Type 0 where
  list_urls create_url detail_url delete_url url_options list_logs retry_url : Endpoint

abbrev pub logs_suffix : List ℕ
logs_suffix = codes "/logs"

abbrev pub retry_suffix : List ℕ
retry_suffix = codes "/retry"

abbrev pub Routes : Type 0
Routes = List (Route find_submatch same_method Endpoint)

abbrev register : Method → Pattern → Endpoint → Routes → Routes
register = handle_func find_submatch same_method Endpoint

unfoldable pub routes : Routes
unfolding handle_func
routes = register post (url_id retry_suffix) retry_url (
    register get (url_id logs_suffix) list_logs (
      register options (url_id []) url_options (
        register delete (url_id []) delete_url (
          register get (url_id []) detail_url
            (register post urls create_url (register get urls list_urls []))))))

unfoldable pub serve : Method → List ℕ → Served find_submatch same_method Endpoint
unfolding routes find_submatch serve_http
serve method path = serve_http find_submatch same_method Endpoint routes method path
