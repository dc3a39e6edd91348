-- ===== src/Server/Api/Created.antt =====
-- A url that is posted to the API is served by it.
use mathlib.Core.List.{append-nil}
use youtube_ar.Base.{
  ℕ, ◌<◌, String, ◌<>◌, List, [], ◌∷◌, ◌++◌, Result, ok, err, no_rows, GoError, codes, ◌≡◌, ◌≢◌,
  refl, sym, ap, ◌∙◌, ◌⊎◌, inl, inr, Context,
}
use youtube_ar.Model.{Url}
use youtube_ar.Event.{UrlEvent, UrlPayload}
use youtube_ar.Event.Json.{itoa}
use youtube_ar.Query.{Param, Validated}
use youtube_ar.Resource.{new_url}
use youtube_ar.Sql.{Querier}
use youtube_ar.Sql.Postgres.{Postgres}
use youtube_ar.Redis.{Redis}
use youtube_ar.Broker.{World}
use youtube_ar.Store
use youtube_ar.Store.{get_url_statement}
use youtube_ar.Store.Ids.{AreNumbered}
use youtube_ar.Store.Lookup.{get_url-create_url}
use youtube_ar.Manager.Server as Manager
use youtube_ar.Manager.Server.{url_of}
use youtube_ar.Manager.Server.Queues.{store-create_url}
use youtube_ar.Server.Http.{get, post, Write}
use youtube_ar.Server.Handler as Handler
use youtube_ar.Server.Handler.{Body, url_body, Reply, respond, refuse, serve_http, detail_reply}
use youtube_ar.Server.Middleware.{cors, logged}
use youtube_ar.Server.Mux.{handled}
use youtube_ar.Server.Number.Printed.{parse_int-itoa, codes-append, itoa-digits}
use youtube_ar.Server.Routes.{serve}
use youtube_ar.Server.Routes as Routes
use youtube_ar.Server.Routes.Paths.{url_path, serve_url_paths}
use youtube_ar.Server.Api.{ServerRequest, routed, with_log, handle_request}
use youtube_ar.Server.Api.Replies.{
  json_writes, error_writes, created_reply, found_reply, failed_reply, sent_created, sent_found,
  sent_failed,
}

-- The path of a url, as a client builds it.
abbrev pub detail_path : ℕ → String
detail_path id = "/urls/" <> itoa id

serve_detail :
    (id : ℕ)
    → id < 9223372036854775808
    → serve get (codes (detail_path id))
      ≡ handled Routes.detail_url (codes (detail_path id) ∷ codes (itoa id) ∷ [])
serve_detail id h =
    let (c, s, e, digits) = itoa-digits id h in
    let path : codes (detail_path id) ≡ url_path (c ∷ s) [] =
      codes-append "/urls/" (itoa id)
      ∙ ap (λ l. codes "/urls/" ++ l) (e ∙ sym (append-nil (c ∷ s))) in
    ap (serve get) path
    ∙ (serve_url_paths c s digits).0
    ∙ ap (λ p. handled Routes.detail_url (p ∷ (c ∷ s) ∷ [])) (sym path)
    ∙ ap (λ ds. handled Routes.detail_url (codes (detail_path id) ∷ ds ∷ [])) (sym e)

serve_post : serve post (codes "/urls") ≡ handled Routes.create_url (codes "/urls" ∷ [])
unfolding serve
serve_post = refl

module _ (r : Redis) (db : Querier) {Values : Type 0}
    (query_validate : Values → List Param → Result Validated) (parse : String → Result (Unit {0}))
    (unmarshal : String → Result UrlEvent) (marshal : Body → Result String)
    (media_url : String) where
  abbrev pub create_request : Context → Values → UrlPayload → ℕ → String → ServerRequest Values
  create_request ctx values p now duration = record {
    ctx = ctx;
    method = post;
    path = "/urls";
    values = values;
    decoded = ok p;
    now = now;
    duration = duration;
  }

  abbrev pub detail_request :
      Context → Values → Result UrlPayload → ℕ → ℕ → String → ServerRequest Values
  detail_request ctx values decoded id now duration = record {
    ctx = ctx;
    method = get;
    path = detail_path id;
    values = values;
    decoded = decoded;
    now = now;
    duration = duration;
  }

  abbrev pub answer : ServerRequest Values → World r db.Conn → List Write × World r db.Conn
  answer = handle_request r db query_validate parse unmarshal marshal media_url

  answer-create_request :
      (ctx : Context) (values : Values) (p : UrlPayload) (now : ℕ) (duration : String)
      (w : World r db.Conn) (v : Url) (text : String)
      → parse p.url ≡ ok tt
      → (Manager.create_url r db ctx p w).0 ≡ ok v
      → marshal (url_body (new_url media_url v)) ≡ ok text
      → let (writes, w') = answer (create_request ctx values p now duration) w in
        (writes ≡ json_writes 201 text) × (w'.rest ≡ (Manager.create_url r db ctx p w).1.rest)
  unfolding handle_request
  answer-create_request ctx values p now duration w v text a b c =
      let e =
        created_reply marshal media_url parse (Manager.create_url r db ctx) p v text w a b c in
      (ap (λ x. cors (logged (serve_http x.0)).calls) e ∙ sent_created text, ap (λ x. x.1.rest) e)

  answer-detail_request :
      (ctx : Context) (values : Values) (decoded : Result UrlPayload) (id now : ℕ)
      (duration : String) (w : World r db.Conn) (reply : Reply)
      → id < 9223372036854775808
      → (Handler.detail_url marshal media_url
          (Manager.get_url r db ctx)
          (codes (detail_path id) ∷ codes (itoa id) ∷ [])
          w).0
        ≡ reply
      → (answer (detail_request ctx values decoded id now duration) w).0
        ≡ cors (logged (serve_http reply)).calls
  unfolding handle_request
  answer-detail_request ctx values decoded id now duration w reply h e =
      let req = detail_request ctx values decoded id now duration in
      ap
        (λ s.
          cors
            (with_log r db query_validate parse unmarshal marshal media_url req
              (routed r db query_validate parse unmarshal marshal media_url s req w)).0)
        (serve_detail id h)
      ∙ ap (λ x. cors (logged (serve_http x)).calls) e

  -- A valid url that is posted to the API is answered with 201 and its resource. A GET for the path of
  -- its id, with nothing written in between, is then answered with 200 and the same body, or with 500 and
  -- the text of the error that the database gave to GetURL's statement, and not with 404. The ids are numbered and the new one is
  -- below 2 ^ 63; CreateURL and the JSON encoder give no error.
  pub create_then_detail :
      (pg : Postgres db) (ctx ctx' : Context) (values values' : Values) (p : UrlPayload)
      (decoded : Result UrlPayload) (now now' : ℕ) (duration duration' : String)
      (w : World r db.Conn) (v : Url) (text : String)
      → AreNumbered (pg.tables w.rest)
      → v.id < 9223372036854775808
      → parse p.url ≡ ok tt
      → (Manager.create_url r db ctx p w).0 ≡ ok v
      → marshal (url_body (new_url media_url v)) ≡ ok text
      → let (writes, w') = answer (create_request ctx values p now duration) w in
        let writes' = (answer (detail_request ctx' values' decoded v.id now' duration') w').0 in
        (writes ≡ json_writes 201 text)
        × ((writes' ≡ json_writes 200 text)
            ⊎ ((e : GoError) × ((db.query_url ctx' (get_url_statement v.id) w'.rest).0 ≡ err e)
                × (e ≢ no_rows)
                × (writes' ≡ error_writes e)))
  create_then_detail pg ctx ctx' values values' p decoded now now' duration duration' w v text
        numbered small a b c =
      let (first, rest) = answer-create_request ctx values p now duration w v text a b c in
      let w' = (answer (create_request ctx values p now duration) w).1 in
      let (inserted, at) = store-create_url r db ctx p w v b in
      let digits = parse_int-itoa v.id small in
      let detail = answer-detail_request ctx' values' decoded v.id now' duration' w' in
      let same : (Manager.get_url r db ctx' v.id w').0
          ≡ (Store.get_url db ctx' v.id (Store.create_url db ctx (url_of p) w.rest).1).0 =
        unfold Manager.get_url in ap (λ c'. (Store.get_url db ctx' v.id c').0) (rest ∙ at) in
      (
        first,
        elim (get_url-create_url db pg ctx ctx' (url_of p) v w.rest numbered inserted) [
          | inl h ↦ inl (
              detail _ small (
                found_reply marshal media_url (Manager.get_url r db ctx') _ _ v.id v text w' digits
                  (same ∙ h) c)
              ∙ sent_found text)
          | inr (e, h, n) ↦ inr (
            e,
            (unfold Store.get_url in
                ap (λ c'. (db.query_url ctx' (get_url_statement v.id) c').0) (rest ∙ at) ∙ h),
            n,
            detail _ small (
                  failed_reply marshal media_url (Manager.get_url r db ctx') _ _ v.id e w' digits
                    (same ∙ h) n)
                ∙ sent_failed e,
          )
        ],
      )
