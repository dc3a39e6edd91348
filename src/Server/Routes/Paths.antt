-- ===== src/Server/Routes/Paths.antt =====
-- Which endpoint serves the path of a url.
use youtube_ar.Base.{
  ℕ, List, [], ◌∷◌, ◌++◌, drop, none, some, Bool, true, false, ◌≡◌, refl, ◌∙◌, ap, All, codes,
  if◌then◌else◌, strip_prefix,
}
use youtube_ar.Server.Http.{Method, get, post, delete, options}
use youtube_ar.Server.Mux.{Route, Found, route, find, served, handled}
use youtube_ar.Server.Routes.{
  Endpoint, detail_url, delete_url, url_options, list_logs, retry_url, same_method, find_submatch,
  is_digit, routes, span_digits, urls, url_id, same_text, id_match, serve, logs_suffix,
  retry_suffix,
}

-- The path of the url with the id that the digits spell.
abbrev pub url_path : List ℕ → List ℕ → List ℕ
url_path digits suffix = codes "/urls/" ++ (digits ++ suffix)

abbrev pub IsDigits : List ℕ → Type 0
IsDigits = All (λ c. is_digit c ≡ true)

-- No digit, so that the run of digits ends before it.
abbrev Ends : List ℕ → Type 0
Ends suffix = span_digits suffix ≡ ([], suffix)

span_digits-append :
    (ds suffix : List ℕ) → IsDigits ds → Ends suffix → span_digits (ds ++ suffix) ≡ (ds, suffix)
unfolding span_digits
span_digits-append [] suffix h e = e
span_digits-append (d ∷ ds) suffix (p, h) e = rw (span_digits-append ds suffix h e) (rw p refl)

module _ (d : ℕ) (ds : List ℕ) (digits : IsDigits (d ∷ ds)) where
  abbrev pub Serves : Method → List ℕ → Endpoint → Type 0
  Serves method suffix endpoint =
      serve method (url_path (d ∷ ds) suffix)
      ≡ handled endpoint (url_path (d ∷ ds) suffix ∷ (d ∷ ds) ∷ [])

  spanned : (suffix : List ℕ) → Ends suffix → span_digits (d ∷ ds ++ suffix) ≡ (d ∷ ds, suffix)
  spanned suffix e = span_digits-append (d ∷ ds) suffix digits e

  submatch_urls : (suffix : List ℕ) → find_submatch urls (url_path (d ∷ ds) suffix) ≡ none
  unfolding find_submatch
  submatch_urls suffix = refl

  submatch_id :
      (s suffix : List ℕ)
      → Ends suffix
      → find_submatch (url_id s) (url_path (d ∷ ds) suffix)
        ≡ (if same_text s suffix then some (url_path (d ∷ ds) suffix ∷ (d ∷ ds) ∷ []) else none)
  unfolding find_submatch
  submatch_id s suffix e = ap (id_match s (url_path (d ∷ ds) suffix)) (spanned suffix e)

  abbrev group : List ℕ → List (List ℕ)
  group suffix = url_path (d ∷ ds) suffix ∷ (d ∷ ds) ∷ []

  abbrev R : Type 0
  R = Route find_submatch same_method Endpoint

  abbrev search : Method → List ℕ → Bool → List R → Found find_submatch same_method Endpoint
  search method suffix = find find_submatch same_method Endpoint method (url_path (d ∷ ds) suffix)

  skip :
      (method : Method) (suffix : List ℕ) (has_match : Bool) (r : R) (more : List R)
      → find_submatch r.path (url_path (d ∷ ds) suffix) ≡ none
      → search method suffix has_match (r ∷ more) ≡ search method suffix has_match more
  unfolding find
  skip method suffix has_match r more h = rw (find, h) refl

  wrong :
      (method : Method) (suffix : List ℕ) (has_match : Bool) (r : R) (more : List R)
      → find_submatch r.path (url_path (d ∷ ds) suffix) ≡ some (group suffix)
      → same_method r.method method ≡ false
      → search method suffix has_match (r ∷ more) ≡ search method suffix true more
  unfolding find
  wrong method suffix has_match r more h k = rw (find, h) (rw k refl)

  chosen :
      (method : Method) (suffix : List ℕ) (has_match : Bool) (r : R) (more : List R)
      → find_submatch r.path (url_path (d ∷ ds) suffix) ≡ some (group suffix)
      → same_method r.method method ≡ true
      → search method suffix has_match (r ∷ more) ≡ route r.handler (group suffix)
  unfolding find
  chosen method suffix has_match r more h k = rw (find, h) (rw k refl)

  serve_found :
      (method : Method) (suffix : List ℕ) (endpoint : Endpoint)
      → search method suffix false routes ≡ route endpoint (group suffix)
      → Serves method suffix endpoint
  unfolding serve
  serve_found method suffix endpoint h = ap (served find_submatch same_method Endpoint) h

  plain_id : find_submatch (url_id []) (url_path (d ∷ ds) []) ≡ some (group [])
  unfolding span_digits strip_prefix
  plain_id = submatch_id [] [] refl

  no_suffix : (c : ℕ) (s : List ℕ) → find_submatch (url_id (c ∷ s)) (url_path (d ∷ ds) []) ≡ none
  unfolding span_digits strip_prefix
  no_suffix c s = submatch_id (c ∷ s) [] refl

  search_detail : search get [] false routes ≡ route detail_url (group [])
  unfolding routes
  search_detail =
      skip _ _ _ _ _ (submatch_urls [])
      ∙ skip _ _ _ _ _ (submatch_urls [])
      ∙ chosen _ _ _ _ _ plain_id refl

  search_delete : search delete [] false routes ≡ route delete_url (group [])
  unfolding routes
  search_delete =
      skip _ _ _ _ _ (submatch_urls [])
      ∙ skip _ _ _ _ _ (submatch_urls [])
      ∙ wrong _ _ _ _ _ plain_id refl
      ∙ chosen _ _ _ _ _ plain_id refl

  search_options : search options [] false routes ≡ route url_options (group [])
  unfolding routes
  search_options =
      skip _ _ _ _ _ (submatch_urls [])
      ∙ skip _ _ _ _ _ (submatch_urls [])
      ∙ wrong _ _ _ _ _ plain_id refl
      ∙ wrong _ _ _ _ _ plain_id refl
      ∙ chosen _ _ _ _ _ plain_id refl

  -- Under a suffix that is not empty, the first five routes are skipped.
  skip_five :
      (method : Method) (c : ℕ) (s : List ℕ)
      → find_submatch (url_id []) (url_path (d ∷ ds) (c ∷ s)) ≡ none
      → search method (c ∷ s) false routes ≡ search method (c ∷ s) false (drop 5 routes)
  unfolding routes
  skip_five method c s h =
      skip _ _ _ _ _ (submatch_urls (c ∷ s))
      ∙ skip _ _ _ _ _ (submatch_urls (c ∷ s))
      ∙ skip _ _ _ _ _ h
      ∙ skip _ _ _ _ _ h
      ∙ skip _ _ _ _ _ h

  search_logs : search get logs_suffix false routes ≡ route list_logs (group logs_suffix)
  unfolding routes span_digits strip_prefix
  search_logs =
      skip_five _ _ _ (submatch_id [] logs_suffix refl)
      ∙ chosen _ _ _ _ _ (submatch_id logs_suffix logs_suffix refl) refl

  search_retry : search post retry_suffix false routes ≡ route retry_url (group retry_suffix)
  unfolding routes span_digits strip_prefix
  search_retry =
      skip_five _ _ _ (submatch_id [] retry_suffix refl)
      ∙ skip _ _ _ _ _ (submatch_id logs_suffix retry_suffix refl)
      ∙ chosen _ _ _ _ _ (submatch_id retry_suffix retry_suffix refl) refl

-- For every id that is spelt by at least one digit, GET /urls/ID is served by detailURL, DELETE by
-- deleteURL, OPTIONS by the empty handler, GET /urls/ID/logs by listLogs and POST /urls/ID/retry by
-- retryURL, each with the digits as its group.
pub serve_url_paths :
    (d : ℕ) (ds : List ℕ) (digits : IsDigits (d ∷ ds))
    → Serves d ds digits get [] detail_url
      × Serves d ds digits delete [] delete_url
      × Serves d ds digits options [] url_options
      × Serves d ds digits get logs_suffix list_logs
      × Serves d ds digits post retry_suffix retry_url
serve_url_paths d ds digits = (
  serve_found d ds digits get [] detail_url (search_detail d ds digits),
  serve_found d ds digits delete [] delete_url (search_delete d ds digits),
  serve_found d ds digits options [] url_options (search_options d ds digits),
  serve_found d ds digits get logs_suffix list_logs (search_logs d ds digits),
  serve_found d ds digits post retry_suffix retry_url (search_retry d ds digits),
)
