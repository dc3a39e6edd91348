-- ===== src/Tests/Worker.antt =====
-- A worker over lists and tables in memory: a download that fails under a cancelled context.
use youtube_ar.Base.{
  String, List, [], ◌∷◌, none, Bool, false, Result, ok, err, failed, canceled, live, done, refl,
  str_eq, if◌then◌else◌, arith,
}
use youtube_ar.Model.{Url, zero_url}
use youtube_ar.Event.{UrlEvent, UrlPayload, marshal}
use youtube_ar.Redis.Memory.{memory as redis, memory-RedisLists, memory-Answers}
use youtube_ar.Sql.Meaning.{UrlRow, Tables}
use youtube_ar.Sql.Memory.{Memory, memory, memory-Postgres}
use youtube_ar.Store.{lock_url, unlock_url}
use youtube_ar.Broker.{World, popped, receive}
use youtube_ar.Manager.Worker.{finished, Downloader, OEmbed}
use youtube_ar.Worker.{download_url_handler}
use youtube_ar.Manager.Server.{create_url, event_of}
use youtube_ar.Worker.Posted.{created_event_settles}
use youtube_ar.Worker.Delivery.{Settled, download_event_settles}

abbrev sound : String → Bool
sound k = false

abbrev event : UrlEvent
event = record { id = 2; url = "u" }

abbrev lists : String → List String
lists k = if str_eq k "download-url" then marshal event ∷ [] else []

abbrev unmarshal : String → Result UrlEvent
unmarshal s = ok event

abbrev cancelled_download : Downloader (memory false)
cancelled_download ctx u c = (finished (err (failed "signal: killed")), done canceled, c)

abbrev no_oembed : OEmbed
no_oembed ctx url = err (failed "none")

abbrev row : UrlRow
row = record { url = record zero_url { id = 2; url = "u"; status = "pending" }; deleted_at = none }

abbrev tables : Tables
tables = record { urls = row ∷ []; next_id = 3; youtube_videos = []; next_video_id = 1 }

abbrev world : World (redis sound) Memory
world = record { redis = lists; logged = []; rest = record { tables = tables; base = tables } }

download_event_settles_example :
    Settled
      (redis sound)
      (memory-RedisLists sound)
      (memory false)
      (memory-Postgres false)
      cancelled_download
      no_oembed
      unmarshal
      live
      "download-url"
      (marshal event)
      event
      world
      (receive
        (redis sound)
        Memory
        popped
        "1s"
        "download-url"
        (download_url_handler
          (redis sound)
          (memory false)
          cancelled_download
          no_oembed
          unmarshal
          live)
        world)
unfolding memory-Postgres lock_url unlock_url
download_event_settles_example =
    download_event_settles (redis sound) (memory-RedisLists sound) (memory false)
      (memory-Postgres false) cancelled_download no_oembed unmarshal live
      ((λ k v s. refl), (λ k v s. refl)) (λ ctx u c id. refl) (λ u c. refl) "1s" "download-url"
      (marshal event) event world refl refl refl refl

abbrev empty : World (redis sound) Memory
empty =
    let t : Tables = record { urls = []; next_id = 2; youtube_videos = []; next_video_id = 1 } in
    record { redis = λ k. []; logged = []; rest = record { tables = t; base = t } }

abbrev payload : UrlPayload
payload = record { url = "u"; retries = 0 }

abbrev created : Url
created = record zero_url { id = 2; created_at = 7; updated_at = 7; url = "u"; status = "pending" }

created_event_settles_example :
    let w' = (create_url (redis sound) (memory false) live payload empty).1 in
    Settled
      (redis sound)
      (memory-RedisLists sound)
      (memory false)
      (memory-Postgres false)
      cancelled_download
      no_oembed
      unmarshal
      live
      "download-url"
      (marshal (event_of created))
      (event_of created)
      w'
      (receive
        (redis sound)
        Memory
        popped
        "1s"
        "download-url"
        (download_url_handler
          (redis sound)
          (memory false)
          cancelled_download
          no_oembed
          unmarshal
          live)
        w')
unfolding memory-Postgres lock_url unlock_url create_url memory-RedisLists
created_event_settles_example =
    created_event_settles (redis sound) (memory-RedisLists sound) (memory false)
      (memory-Postgres false) cancelled_download no_oembed ((λ k v s. refl), (λ k v s. refl))
      (memory-Answers sound) (λ ctx u c id. refl) (λ u c. refl) unmarshal live live payload "1s"
      empty created (omega arith) refl refl refl refl
