-- ===== src/Tests/Api.antt =====
-- Requests to the API over lists and tables in memory.
use youtube_ar.Base.{
  String, List, [], ◌∷◌, Bool, false, Result, ok, err, GoError, failed, no_rows, live, ◌≡◌, ◌≢◌,
  ◌⊎◌, refl, arith,
}
use youtube_ar.Model.{Url, zero_url}
use youtube_ar.Event.{UrlEvent, UrlPayload}
use youtube_ar.Query.{Param, Validated}
use youtube_ar.Redis.Memory.{memory as redis}
use youtube_ar.Sql.Meaning.{Tables}
use youtube_ar.Sql.Memory.{Memory, memory, memory-Postgres}
use youtube_ar.Store.{get_url_statement}
use youtube_ar.Broker.{World}
use youtube_ar.Manager.Server.{create_url}
use youtube_ar.Server.Http.{options, set_header}
use youtube_ar.Server.Handler.{Body}
use youtube_ar.Server.Middleware.{cors, logged}
use youtube_ar.Server.Api.{ServerRequest, handle_request}
use youtube_ar.Server.Api.Replies.{json_writes, error_writes}
use youtube_ar.Server.Api.Created.{create_request, detail_request, answer, create_then_detail}

abbrev sound : String → Bool
sound k = false

abbrev no_query : Unit {0} → List Param → Result Validated
no_query values params = err (failed "no query")

abbrev parse : String → Result (Unit {0})
parse s = ok tt

abbrev unmarshal : String → Result UrlEvent
unmarshal s = err (failed "no event")

abbrev marshal : Body → Result String
marshal body = ok "{}"

abbrev no_tables : Tables
no_tables = record { urls = []; next_id = 1; youtube_videos = []; next_video_id = 1 }

abbrev world : World (redis sound) Memory
world = record {
  redis = λ k. [];
  logged = [];
  rest = record { tables = no_tables; base = no_tables };
}

abbrev payload : UrlPayload
payload = record { url = "u"; retries = 0 }

abbrev created : Url
created = record zero_url { id = 1; created_at = 7; updated_at = 7; url = "u"; status = "pending" }

abbrev preflight : ServerRequest (Unit {0})
preflight = record {
  ctx = live;
  method = options;
  path = "/urls/1";
  values = tt;
  decoded = err (failed "EOF");
  now = 7;
  duration = "1ms";
}

handle_preflight :
    (handle_request
      (redis sound)
      (memory false)
      no_query
      parse
      unmarshal
      marshal
      "m/"
      preflight
      world).0
    ≡ set_header "Access-Control-Allow-Origin" "*"
      ∷ set_header "Access-Control-Allow-Methods" "DELETE"
      ∷ []
unfolding handle_request cors logged
handle_preflight = refl

create_then_detail_example :
    let serve = answer (redis sound) (memory false) no_query parse unmarshal marshal "m/" in
    let post = create_request (redis sound) (memory false) no_query parse unmarshal marshal "m/" in
    let detail =
      detail_request (redis sound) (memory false) no_query parse unmarshal marshal "m/" in
    let (writes, w') = serve (post live tt payload 7 "1ms") world in
    let writes' = (serve (detail live tt (err (failed "EOF")) 1 8 "1ms") w').0 in
    (writes ≡ json_writes 201 "{}")
    × ((writes' ≡ json_writes 200 "{}")
        ⊎ ((e : GoError) × (((memory false).query_url live (get_url_statement 1) w'.rest).0 ≡ err e)
            × (e ≢ no_rows)
            × (writes' ≡ error_writes e)))
unfolding create_url memory-Postgres
create_then_detail_example =
    create_then_detail (redis sound) (memory false) no_query parse unmarshal marshal "m/"
      (memory-Postgres false) live live tt tt payload (err (failed "EOF")) 7 8 "1ms" "1ms" world
      created "{}" (omega arith) (omega arith) refl refl refl
