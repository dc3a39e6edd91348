-- ===== src/Tests/Server.antt =====
-- The router and the middleware on concrete requests.
use youtube_ar.Base.{ℕ, [], ◌∷◌, ◌≡◌, ◌⊎◌, ◌≢◌, refl, codes, arith, All, if◌then◌else◌, some}
use youtube_ar.Server.Http.{
  post, get, delete, options, write_header, write, set_header, http_error, status_text,
}
use youtube_ar.Server.Mux.{handled, error}
use youtube_ar.Server.Mux
use youtube_ar.Server.Mux.Dispatch.{First, IsUnfit, any_path, serve_http_dispatches}
use youtube_ar.Server.Routes.{
  Endpoint, same_method, find_submatch, routes, serve, detail_url, delete_url, url_options,
  list_logs, retry_url, logs_suffix, retry_suffix,
}
use youtube_ar.Server.Routes.Paths.{Serves, serve_url_paths}
use youtube_ar.Event.Json.{itoa}
use youtube_ar.Server.Number.{parse_int}
use youtube_ar.Server.Number.Printed.{parse_int-itoa}
use youtube_ar.Server.Number.Octal.{parse_int-zero_ne}
use youtube_ar.Server.Middleware.{logged}
use youtube_ar.Server.Middleware.Status.{sent, recorded, logged_sent}

serve_retry :
    serve post (codes "/urls/12/retry")
    ≡ handled retry_url (codes "/urls/12/retry" ∷ codes "12" ∷ [])
unfolding serve
serve_retry = refl

serve_wrong_method : serve post (codes "/urls/12") ≡ error 405 (http_error "Method Not Allowed" 405)
unfolding serve
serve_wrong_method = refl

serve_unknown : serve get (codes "/urls/x") ≡ error 404 (http_error "Not Found" 404)
unfolding serve
serve_unknown = refl

serve_http_dispatches_example :
    let path = codes "/urls/7" in
    let answer = Mux.serve_http find_submatch same_method Endpoint routes post path in
    ((f : First find_submatch same_method Endpoint post path routes) × (answer
        ≡ handled f.chosen.handler f.groups))
    ⊎ ((All (IsUnfit find_submatch same_method Endpoint post path) routes)
        × (answer ≡ (
            if any_path find_submatch same_method Endpoint post path routes
            then error 405 (http_error (status_text 405) 405)
            else error 404 (http_error (status_text 404) 404))))
serve_http_dispatches_example =
    serve_http_dispatches find_submatch same_method Endpoint post (codes "/urls/7") routes

nonzero : ◌≢◌ {A = ℕ} 201 0
nonzero e = omega (arith, e)

logged_sent_example :
    let calls = set_header "Content-Type" "application/json" ∷ write_header 201 ∷ write "{}" ∷ [] in
    ((logged calls).code ≡ recorded (sent (logged calls).calls))
    × (sent (logged calls).calls ≡ sent calls)
logged_sent_example =
    logged_sent (set_header "Content-Type" "application/json" ∷ write_header 201 ∷ write "{}" ∷ [])
      (nonzero, tt)

serve_url_paths_example :
    Serves 49 (50 ∷ []) (refl, (refl, tt)) get [] detail_url
    × Serves 49 (50 ∷ []) (refl, (refl, tt)) delete [] delete_url
    × Serves 49 (50 ∷ []) (refl, (refl, tt)) options [] url_options
    × Serves 49 (50 ∷ []) (refl, (refl, tt)) get logs_suffix list_logs
    × Serves 49 (50 ∷ []) (refl, (refl, tt)) post retry_suffix retry_url
serve_url_paths_example = serve_url_paths 49 (50 ∷ []) (refl, (refl, tt))

parse_int-itoa_example : parse_int (codes (itoa 12)) ≡ some 12
parse_int-itoa_example = parse_int-itoa 12 (omega arith)

parse_int-zero_ne_example : parse_int (48 ∷ codes (itoa 12)) ≢ some 12
parse_int-zero_ne_example = parse_int-zero_ne 12 (omega arith) (omega arith)
