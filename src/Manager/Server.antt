-- ===== src/Manager/Server.antt =====
-- api/manager/server.go. `Conn` is the connection that the operation is given: a transaction's, if it
-- runs in one.
pub mod Queues
use youtube_ar.Base.{ℕ, List, ok, M, Context, true, ◌>>=◌, ◌>>◌, pure, ◌==◌, if◌then◌else◌}
use youtube_ar.Model.{Url, Log, no_int64, zero_url}
use youtube_ar.Query.{UrlsQuery, LogsQuery}
use youtube_ar.Event.{UrlEvent, UrlPayload, marshal}
use youtube_ar.Sql.{Querier}
use youtube_ar.Store
use youtube_ar.Redis.{Redis}
use youtube_ar.Broker
use youtube_ar.Broker.{World, send}

-- The url that CreateURL hands to the store.
abbrev pub url_of : UrlPayload → Url
url_of p = record zero_url {
  url = p.url;
  retries = if p.retries == 0 then no_int64 else (record { valid = true; int64 = p.retries });
}

abbrev pub event_of : Url → UrlEvent
event_of url = record { id = url.id; url = url.url }

module _ (r : Redis) (db : Querier) where
  -- A call on the store.
  abbrev pub on_store : {A : Type 0} → M db.Conn A → M (World r db.Conn) A
  on_store m w = let (a, c) = m w.rest in (a, record w { rest = c })

  -- `if err := m(); err != nil {}`
  abbrev pub ignore : M (World r db.Conn) (Unit {0}) → M (World r db.Conn) (Unit {0})
  ignore m w = (ok tt, (m w).1)

  unfoldable pub create_url : Context → UrlPayload → M (World r db.Conn) Url
  unfolding Store.create_url Broker.send
  create_url ctx p = do
    url ← on_store (Store.create_url db ctx (url_of p))
    ignore (send r db.Conn "download-url" (marshal (event_of url)))
    ignore (send r db.Conn "get-oembed" (marshal (event_of url)))
    pure url

  unfoldable pub get_url : Context → ℕ → M (World r db.Conn) Url
  unfolding Store.get_url
  get_url ctx id = on_store (Store.get_url db ctx id)

  unfoldable pub delete_url : (now : ℕ) → Context → ℕ → M (World r db.Conn) (Unit {0})
  unfolding Store.delete_url
  delete_url now ctx id = on_store (Store.delete_url db now ctx id)

  unfoldable pub list_urls : Context → UrlsQuery → M (World r db.Conn) (List Url)
  unfolding Store.list_urls
  list_urls ctx q = on_store (Store.list_urls db ctx q)

  unfoldable pub list_logs : Context → ℕ → LogsQuery → M (World r db.Conn) (List Log)
  unfolding Store.list_logs
  list_logs ctx url_id q = on_store (Store.list_logs db ctx url_id q)
