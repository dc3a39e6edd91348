-- ===== src/Manager/Worker.antt =====
-- api/manager/worker.go: the life of a download, from the lock to the unlock.
pub mod Settles
pub mod Status
use youtube_ar.Base.{String, none, some, Result, ok, err, error_text, M, Context, live, done, true}
use youtube_ar.Model.{Url, zero_url}
use youtube_ar.Event.{UrlEvent}
use youtube_ar.Sql.{Querier}
use youtube_ar.Store
use youtube_ar.Broker.{Outcome, returned, panicked}

-- What a call of `Downloader.DownloadURL` does: it returns a file or an error, or it panics.
pub data Download : Type 0 where
  finished : Result String → Download
  crashed : String → Download

-- `DownloadURL` of the interface Downloader; it also gives the context as it is when it ends.
abbrev pub Downloader : Querier → Type 0
Downloader db = Context → Url → db.Conn → Download × Context × db.Conn

-- `OEmbed.Get`
abbrev pub OEmbed : Type 0
OEmbed = Context → String → Result String

-- The url's error, file and status, as the deferred function sets them.
unfoldable pub settle : Download → Url → Url
unfolding error_text
settle (finished (ok file)) url = record url {
  file = record { valid = true; string = file };
  status = "success";
}
settle (finished (err e)) url = record url {
  error = record { valid = true; string = error_text e };
  status = "failure";
}
settle (crashed text) url = record url {
  error = record { valid = true; string = text };
  status = "failure";
}

-- The error that DownloadURL returns, or the panic that it raises again.
unfoldable pub outcome : Download → Outcome
outcome (finished (ok _)) = returned none
outcome (finished (err e)) = returned (some e)
outcome (crashed text) = panicked text

-- A new context with a timeout, where the old one is done.
unfoldable pub unlock_context : Context → Context
unlock_context live = live
unlock_context (done _) = live

abbrev pub processing : UrlEvent → Url
processing e = record zero_url { id = e.id; url = e.url; status = "processing" }

module _ (db : Querier) (download : Downloader db) (oembed : OEmbed) where
  -- The download and the deferred function.
  unfoldable pub download_locked : Context → Url → db.Conn → Outcome × db.Conn
  unfolding Store.unlock_url settle outcome unlock_context
  download_locked ctx url c =
      let (d, ctx', c') = download ctx url c in
      (outcome d, (Store.unlock_url db (unlock_context ctx') (settle d url) c').1)

  abbrev pub locked : Context → Url → Result (Unit {0}) × db.Conn → Outcome × db.Conn
  locked ctx url (ok _, c) = download_locked ctx url c
  locked ctx url (err e, c) = (returned (some e), c)

  unfoldable pub download_url : Context → UrlEvent → db.Conn → Outcome × db.Conn
  unfolding Store.lock_url download_locked
  download_url ctx e c = locked ctx (processing e) (Store.lock_url db ctx (processing e) c)

  abbrev pub stored : Context → UrlEvent → Result String → M db.Conn (Unit {0})
  stored ctx e (err x) c = (err x, c)
  stored ctx e (ok b) c = Store.set_oembed db ctx (record zero_url { id = e.id; oembed = some b }) c

  unfoldable pub get_oembed : Context → UrlEvent → M db.Conn (Unit {0})
  unfolding Store.set_oembed
  get_oembed ctx e = stored ctx e (oembed ctx e.url)
