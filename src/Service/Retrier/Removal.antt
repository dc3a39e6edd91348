-- ===== src/Service/Retrier/Removal.antt =====
-- The removal of a failed event before its url is retried by hand.
use youtube_ar.Base.{
  ℕ, String, List, [], ◌∷◌, ok, err, redis_nil, no_rows, canceled, deadline_exceeded, failed,
  and_then, ◌>>=◌, Result, Result-cases, inl, inr, ◌≡◌, ◌≢◌, refl, ◌∙◌, ap, sym, str_eq_of_ne, All,
  Context,
}
use youtube_ar.Model.{Url}
use youtube_ar.Event.{UrlEvent, UrlPayload, marshal}
use youtube_ar.Event.Distinct.{marshal_ne}
use youtube_ar.Sql.{Querier}
use youtube_ar.Redis.{Redis, RedisLists, erase}
use youtube_ar.Broker.{World, failed_of, rem_failed}
use youtube_ar.Broker.Lists.{listed}
use youtube_ar.Manager.Server.{on_store, create_url}
use youtube_ar.Manager.Server.Queues.{create_url-other}
use youtube_ar.Store.{get_url, get_url_statement}
use youtube_ar.Service.Retrier.{retry, retry_payload, retry_download_url, retried_event, removed}

-- The text of an event of a url that is not empty, as CreateURL sends it.
abbrev pub IsEvent : String → Type 0
IsEvent text =
    (id : ℕ) × (url : String) × (url ≢ "") × (text ≡ marshal (record { id = id; url = url }))

erase_of_IsEvent :
    (id : ℕ) (l : List String) → All IsEvent l → erase (marshal (retried_event id)) l ≡ l
erase_of_IsEvent id [] h = refl
erase_of_IsEvent id (x ∷ l) ((id', url, ne, e), h) =
    let other =
      str_eq_of_ne x (marshal (retried_event id)) (λ k. marshal_ne id id' url ne (sym k ∙ e)) in
    rw other (ap (λ m. x ∷ m) (erase_of_IsEvent id l h))

abbrev failed_key : String
failed_key = failed_of "download-url"

module _ (r : Redis) (L : RedisLists r) (db : Querier) where
  failed_events : World r db.Conn → List String
  failed_events w = listed r L db.Conn w failed_key

  create_url-failed_events :
      (ctx : Context) (p : UrlPayload) (w : World r db.Conn)
      → failed_events (create_url r db ctx p w).1 ≡ failed_events w
  unfolding failed_events
  create_url-failed_events ctx p w = create_url-other r L db ctx p w failed_key refl refl

  rem_failed-failed_events :
      (id : ℕ) (w : World r db.Conn)
      → All IsEvent (failed_events w)
      → failed_events (rem_failed r db.Conn "download-url" (marshal (retried_event id)) w).1
        ≡ failed_events w
  unfolding rem_failed failed_events
  rem_failed-failed_events id w h =
      elim (Result-cases (r.lrem failed_key 1 (marshal (retried_event id)) w.redis).0) [
        | inl (_, ran) ↦ L.lrem_ok failed_key _ failed_key w.redis ran ∙ erase_of_IsEvent id _ h
        | inr (e, ran) ↦ L.lrem_err failed_key _ failed_key w.redis e ran
      ]

  module _ (unmarshal : String → Result UrlEvent) where
    removed_state : (x : Result (Unit {0}) × World r db.Conn) → (removed r db unmarshal x).1 ≡ x.1
    removed_state (ok _, w) = refl
    removed_state (err redis_nil, w) = refl
    removed_state (err no_rows, w) = refl
    removed_state (err canceled, w) = refl
    removed_state (err deadline_exceeded, w) = refl
    removed_state (err (failed text), w) = refl

    retry-failed_events :
        (ctx : Context) (u : Url) (w : World r db.Conn)
        → failed_events (retry r db unmarshal ctx u w).1 ≡ failed_events w
    unfolding retry
    retry-failed_events ctx u w = create_url-failed_events ctx (retry_payload u) w

    abbrev looked_up : Context → ℕ → World r db.Conn → Result Url × World r db.Conn
    looked_up ctx id = on_store r db (get_url db ctx id) >>= retry r db unmarshal ctx

    looked_up-failed_events :
        (ctx : Context) (id : ℕ) (w : World r db.Conn)
        → failed_events (looked_up ctx id w).1 ≡ failed_events w
    unfolding get_url
    looked_up-failed_events ctx id w =
        elim (Result-cases (db.query_url ctx (get_url_statement id) w.rest).0) [
          | inl (u, ran) ↦ rw ran (retry-failed_events ctx u _ ∙ same)
          | inr (e, ran) ↦ rw ran same
        ]
      where
        same :
            failed_events (record w { rest = (db.query_url ctx (get_url_statement id) w.rest).1 })
            ≡ failed_events w
        same = unfold failed_events in refl

    retry_download_url_lem :
        (ctx : Context) (id : ℕ) (w : World r db.Conn)
        → let x =
            removed r db unmarshal
              (rem_failed r db.Conn "download-url" (marshal (retried_event id)) w) in
          retry_download_url r db unmarshal ctx id w ≡ and_then x (λ _. looked_up ctx id)
    unfolding retry_download_url
    retry_download_url_lem ctx id w = refl

    and_then-failed_events :
        (x : Result (Unit {0}) × World r db.Conn)
        (k : World r db.Conn → Result Url × World r db.Conn)
        → ((w : World r db.Conn) → failed_events (k w).1 ≡ failed_events w)
        → failed_events (and_then x (λ _. k)).1 ≡ failed_events x.1
    and_then-failed_events (ok _, w) k h = h w
    and_then-failed_events (err e, w) k h = refl

    removed-failed_events :
        (ctx : Context) (id : ℕ) (w : World r db.Conn)
        → All IsEvent (failed_events w)
        → failed_events (retry_download_url r db unmarshal ctx id w).1 ≡ failed_events w
    removed-failed_events ctx id w h =
        let x =
          removed r db unmarshal
            (rem_failed r db.Conn "download-url" (marshal (retried_event id)) w) in
        rw retry_download_url_lem (
          and_then-failed_events x (looked_up ctx id) (looked_up-failed_events ctx id)
          ∙ ap failed_events (removed_state _)
          ∙ rem_failed-failed_events id w h)

    -- Where each text in the list of failed downloads is that of an event of a url that is not empty,
    -- retrying a download by hand leaves the list as it is: the event that it removes has an empty url,
    -- and its text is that of no failed event, so the failed event of the url stays.
    pub retry_download_url_keeps_failed :
        (ctx : Context) (id : ℕ) (w : World r db.Conn)
        → All IsEvent (listed r L db.Conn w (failed_of "download-url"))
        → listed r L db.Conn
            (retry_download_url r db unmarshal ctx id w).1
            (failed_of "download-url")
          ≡ listed r L db.Conn w (failed_of "download-url")
    retry_download_url_keeps_failed ctx id w h =
        unfold failed_events in removed-failed_events ctx id w h
