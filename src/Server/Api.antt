-- ===== src/Server/Api.antt =====
-- api/server.go: the endpoints with the manager and the retrier that runServer gives them, behind the
-- router and the middleware.
pub mod Replies
pub mod Created
use youtube_ar.Base.{ℕ, String, ◌<>◌, List, [], ◌∷◌, Result, Context, codes}
use youtube_ar.Log.{Entry, string, int}
use youtube_ar.Event.{UrlEvent, UrlPayload}
use youtube_ar.Query.{Param, Validated}
use youtube_ar.Sql.{Querier}
use youtube_ar.Redis.{Redis}
use youtube_ar.Broker.{World, log_entry}
use youtube_ar.Manager.Server as Manager
use youtube_ar.Service.Retrier.{retry_download_url}
use youtube_ar.Server.Http.{Method, get, post, delete, options, other, Write, set_header}
use youtube_ar.Server.Handler
use youtube_ar.Server.Handler.{Body, Reply, serve_http}
use youtube_ar.Server.Middleware.{cors, logged, ResponseWriter}
use youtube_ar.Server.Mux.{Served, handled, error}
use youtube_ar.Server.Routes.{Endpoint, find_submatch, same_method, serve}
use youtube_ar.Server.Routes as Routes

-- A request: `values` is its query string, `decoded` the payload that the JSON decoder reads from its
-- body. With it the time of the call and the text of the time that it takes.
pub record ServerRequest (Values : Type 0) : Type 0 where
  pub ctx : Context
  pub method : Method
  pub path : String
  pub values : Values
  pub decoded : Result UrlPayload
  pub now : ℕ
  pub duration : String

abbrev pub method_text : Method → String
method_text get = "GET"
method_text post = "POST"
method_text delete = "DELETE"
method_text options = "OPTIONS"
method_text (other text) = text

-- The line of the middleware `Log`.
abbrev pub request_entry : {Values : Type 0} → ServerRequest Values → ℕ → Entry
request_entry req code = record {
  msg = method_text req.method <> (" " <> req.path);
  fields =
      string "duration" req.duration
      ∷ string "http_method" (method_text req.method)
      ∷ string "http_path" req.path
      ∷ int "http_status" code
      ∷ [];
}

module _ (r : Redis) (db : Querier) {Values : Type 0}
    (query_validate : Values → List Param → Result Validated) (parse : String → Result (Unit {0}))
    (unmarshal : String → Result UrlEvent) (marshal : Body → Result String)
    (media_url : String) where
  abbrev pub W : Type 0
  W = World r db.Conn

  abbrev pub replied : Reply × W → List Write × W
  replied (reply, w) = (serve_http reply, w)

  -- The handler of a route, with its match.
  unfoldable pub run_endpoint : Endpoint → List (List ℕ) → ServerRequest Values → W → List Write × W
  run_endpoint Routes.list_urls match req w = replied (
      Handler.list_urls marshal media_url query_validate (Manager.list_urls r db req.ctx) req.values
        w)
  run_endpoint Routes.create_url match req w =
      replied
        (Handler.create_url marshal media_url parse (Manager.create_url r db req.ctx) req.decoded w)
  run_endpoint Routes.detail_url match req w =
      replied (Handler.detail_url marshal media_url (Manager.get_url r db req.ctx) match w)
  run_endpoint Routes.delete_url match req w =
      replied
        (Handler.delete_url marshal media_url (Manager.delete_url r db req.now req.ctx) match w)
  run_endpoint Routes.url_options match req w =
      (set_header "Access-Control-Allow-Methods" "DELETE" ∷ [], w)
  run_endpoint Routes.list_logs match req w = replied (
      Handler.list_logs marshal media_url query_validate (Manager.list_logs r db req.ctx) match
        req.values w)
  run_endpoint Routes.retry_url match req w =
      replied
        (Handler.retry_url marshal media_url (retry_download_url r db unmarshal req.ctx) match w)

  abbrev pub routed :
      Served find_submatch same_method Endpoint → ServerRequest Values → W → List Write × W
  routed (handled e match) req w = run_endpoint e match req w
  routed (error code writes) req w = (writes, w)

  -- `Log` around what the router writes.
  abbrev pub with_log : ServerRequest Values → List Write × W → List Write × W
  with_log req (writes, w) =
      let rw = logged writes in (rw.calls, log_entry r db.Conn (request_entry req rw.code) w)

  unfoldable pub handle_request : ServerRequest Values → W → List Write × W
  unfolding run_endpoint serve
  handle_request req w =
      let (writes, w') = with_log req (routed (serve req.method (codes req.path)) req w) in
      (cors writes, w')
