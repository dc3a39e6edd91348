-- ===== src/Service/Retrier.antt =====
-- api/service/retrier.go
pub mod Removal
pub mod Bound
pub mod Next
use youtube_ar.Base.{
  ℕ, Bool, ◌>>◌, String, ◌+◌, ◌%◌, ◌&&◌, ltb, leb, if◌then◌else◌, Option, none, some, Result, ok,
  err, redis_nil, M, Context, ◌>>=◌, pure,
}
use youtube_ar.Model.{Url, should_retry}
use youtube_ar.Event.{UrlEvent, UrlPayload, marshal}
use youtube_ar.Sql.{Querier}
use youtube_ar.Store
use youtube_ar.Redis.{Redis}
use youtube_ar.Broker.{World, pop_next_failed, rem_failed}
use youtube_ar.Manager.Server.{on_store, create_url}

abbrev pub two_63 : ℕ
two_63 = 9223372036854775808

abbrev pub two_64 : ℕ
two_64 = 18446744073709551616

-- `failed.Retries.Int64 >= 5`, on two's complement.
abbrev pub at_limit : Url → Bool
at_limit u = leb 5 u.retries.int64 && ltb u.retries.int64 two_63

-- The payload of a retry; the addition of int64 wraps.
abbrev pub retry_payload : Url → UrlPayload
retry_payload u = record { url = u.url; retries = (u.retries.int64 + 1) % two_64 }

-- The event that is removed from the failed ones.
abbrev pub retried_event : ℕ → UrlEvent
retried_event id = record { id = id; url = "" }

-- `unmarshal` is json.Unmarshal into an event.
module _ (r : Redis) (db : Querier) (unmarshal : String → Result UrlEvent) where
  unfoldable pub retry : Context → Url → M (World r db.Conn) Url
  unfolding create_url
  retry ctx u = create_url r db ctx (retry_payload u)

  -- The row of a failed event, from its test on.
  unfoldable pub retry_if_due : Context → Url → M (World r db.Conn) (Option Url)
  unfolding should_retry retry
  retry_if_due ctx u =
      if should_retry u
      then if at_limit u then pure none else (do u' ← retry ctx u; pure (some u'))
      else pure none

  abbrev lift : {A : Type 0} → Result A → M (World r db.Conn) A
  lift a w = (a, w)

  abbrev pub next_popped :
      Context → Result String × World r db.Conn → Result (Option Url) × World r db.Conn
  next_popped ctx (err redis_nil, w) = (ok none, w)
  next_popped ctx (err e, w) = (err e, w)
  next_popped ctx (ok b, w) =
      (do e ← lift (unmarshal b); u ← on_store r db (Store.get_url db ctx e.id); retry_if_due ctx u)
        w

  -- It also gives the url that it creates, which the program drops.
  unfoldable pub retry_next_download_url : Context → M (World r db.Conn) (Option Url)
  unfolding pop_next_failed retry_if_due Store.get_url
  retry_next_download_url ctx w = next_popped ctx (pop_next_failed r db.Conn "download-url" w)

  -- `err != nil && err != redis.Nil`
  abbrev pub removed : Result (Unit {0}) × World r db.Conn → Result (Unit {0}) × World r db.Conn
  removed (err redis_nil, w) = (ok tt, w)
  removed (a, w) = (a, w)

  unfoldable pub retry_download_url : Context → ℕ → M (World r db.Conn) Url
  unfolding rem_failed retry Store.get_url
  retry_download_url ctx id = do
    (λ w. removed (rem_failed r db.Conn "download-url" (marshal (retried_event id)) w))
    u ← on_store r db (Store.get_url db ctx id)
    retry ctx u
