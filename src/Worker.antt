-- ===== src/Worker.antt =====
-- api/worker/handler/handler.go and api/worker/worker.go: the handlers of the queues, and the loop
-- that feeds them.
pub mod Delivery
pub mod Drain
pub mod Posted
use youtube_ar.Base.{String, List, [], ◌∷◌, Option, none, some, Result, ok, err, GoError, Context}
use youtube_ar.Event.{UrlEvent}
use youtube_ar.Sql.{Querier}
use youtube_ar.Redis.{Redis}
use youtube_ar.Manager.Worker.{Downloader, OEmbed, download_url, get_oembed}
use youtube_ar.Broker.{Outcome, returned, World, Handler, Selected, receive}

-- `unmarshal` is json.Unmarshal into an event.
module _ (r : Redis) (db : Querier) (download : Downloader db) (oembed : OEmbed)
    (unmarshal : String → Result UrlEvent) (ctx : Context) where
  -- A handler's call of the manager, which works on the database.
  abbrev on_manager : (db.Conn → Outcome × db.Conn) → World r db.Conn → Outcome × World r db.Conn
  on_manager m w = let (out, c) = m w.rest in (out, record w { rest = c })

  abbrev decoded :
      Result UrlEvent
      → (UrlEvent → db.Conn → Outcome × db.Conn)
      → World r db.Conn
      → Outcome × World r db.Conn
  decoded (err e) m w = (returned (some e), w)
  decoded (ok e) m w = on_manager (m e) w

  unfoldable pub download_url_handler : Handler r db.Conn
  unfolding download_url
  download_url_handler payload = decoded (unmarshal payload) (download_url db download oembed ctx)

  abbrev pub outcome_of : Result (Unit {0}) × db.Conn → Outcome × db.Conn
  outcome_of (ok _, c) = (returned none, c)
  outcome_of (err e, c) = (returned (some e), c)

  unfoldable pub get_oembed_handler : Handler r db.Conn
  unfolding get_oembed
  get_oembed_handler payload =
      decoded (unmarshal payload) (λ e c. outcome_of (get_oembed db download oembed ctx e c))

  -- The handlers that runWorker gives the worker, by their queues.
  abbrev pub handlers : List (String × Handler r db.Conn)
  handlers = ("download-url", download_url_handler) ∷ ("get-oembed", get_oembed_handler) ∷ []

-- The loop of `Listen` for one queue, over what happens at each of its rounds: the case that the
-- select takes and the time that the handler takes. `none` is a loop that is still running.
module _ (r : Redis) (D : Type 0) (queue : String) (handler : Handler r D) where
  abbrev pub continued :
      Result (Unit {0}) × World r D
      → (World r D → Option GoError × World r D)
      → Option GoError × World r D
  continued (ok _, w) more = more w
  continued (err e, w) more = (some e, w)

  unfoldable pub listen : List (Selected × String) → World r D → Option GoError × World r D
  listen [] w = (none, w)
  listen ((selected, duration) ∷ rounds) w =
      continued (receive r D selected duration queue handler w) (listen rounds)
