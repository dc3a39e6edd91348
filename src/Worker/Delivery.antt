-- ===== src/Worker/Delivery.antt =====
-- A download's event from the queue to its row: the broker, the handler and the manager together.
use mathlib.Core.Option
use youtube_ar.Base.{
  String, List, [], ◌∷◌, ◌++◌, some, Result, ok, err, Result-cases, inl, inr, ◌≡◌, refl, ◌∙◌, ap,
  Context,
}
use youtube_ar.Event.{UrlEvent}
use youtube_ar.Sql.{Querier}
use youtube_ar.Sql.Postgres.{Postgres}
use youtube_ar.Store.{lock_url}
use youtube_ar.Store.Rows.{row_at}
use youtube_ar.Redis.{Redis, RedisLists}
use youtube_ar.Broker.{World, Handler, tmp_of, failed_of, popped, receive}
use youtube_ar.Broker.Lists.{listed, with_failure, arrived, KeepsLists, Reliable, received_state}
use youtube_ar.Broker.Delivery.{receive_delivers}
use youtube_ar.Broker.Rest.{handle-rest}
use youtube_ar.Manager.Worker.{
  Download, finished, crashed, Downloader, OEmbed, outcome, processing, download_url,
}
use youtube_ar.Manager.Worker.Settles.{
  KeepsStatus, Unlocks, status_at, state_of, final_state, download_url_settles,
}
use youtube_ar.Worker.{download_url_handler}

-- The list of failed payloads after a download: one that does not end with a file adds its payload.
abbrev pub unless_file : Download → String → List String → List String
unless_file (finished (ok file)) payload l = l
unless_file (finished (err e)) payload l = payload ∷ l
unless_file (crashed text) payload l = payload ∷ l

with_failure-outcome :
    (d : Download) (payload : String) (l : List String)
    → with_failure (outcome d) payload l ≡ unless_file d payload l
unfolding outcome
with_failure-outcome (finished (ok file)) payload l = refl
with_failure-outcome (finished (err e)) payload l = refl
with_failure-outcome (crashed text) payload l = refl

module _ (r : Redis) (L : RedisLists r) (db : Querier) (pg : Postgres db) (download : Downloader db)
    (oembed : OEmbed) (unmarshal : String → Result UrlEvent) (ctx : Context) where
  abbrev handler : Handler r db.Conn
  handler = download_url_handler r db download oembed unmarshal ctx

  handler-KeepsLists : KeepsLists r L db.Conn handler
  unfolding download_url_handler
  handler-KeepsLists p w j = elim (Result-cases (unmarshal p)) [
    | inl (e, k) ↦ rw k refl
    | inr (e, k) ↦ rw k refl
  ]

  handler-decoded :
      (payload : String) (e : UrlEvent) (w : World r db.Conn)
      → unmarshal payload ≡ ok e
      → let (out, c) = download_url db download oembed ctx e w.rest in
        handler payload w ≡ (out, record w { rest = c })
  unfolding download_url_handler
  handler-decoded payload e w k = rw k refl

  -- What one call of Receive leaves where a download's event is popped.
  abbrev pub Settled :
      String → String → UrlEvent → World r db.Conn → Result (Unit {0}) × World r db.Conn → Type 0
  Settled queue payload e w (result, w') =
      let d = (download ctx (processing e) (lock_url db ctx (processing e) w.rest).1).0 in
      (l : List String) × (listed r L db.Conn w queue ≡ l ++ payload ∷ [])
      × (result ≡ ok tt)
      × (listed r L db.Conn w' queue ≡ l)
      × (listed r L db.Conn w' (tmp_of queue) ≡ listed r L db.Conn w (tmp_of queue))
      × (listed r L db.Conn w' (failed_of queue)
          ≡ unless_file d payload (listed r L db.Conn w (failed_of queue)))
      × (Option.map state_of (row_at db pg e.id w'.rest) ≡ some (final_state d))

  received-rest :
      (duration queue payload : String) (e : UrlEvent) (w : World r db.Conn)
      → (r.brpoplpush queue (tmp_of queue) w.redis).0 ≡ ok payload
      → unmarshal payload ≡ ok e
      → (receive r db.Conn popped duration queue handler w).1.rest
        ≡ (download_url db download oembed ctx e w.rest).1
  received-rest duration queue payload e w h k =
      let w1 = arrived r L db.Conn queue w in
      ap (λ x. x.1.rest)
        (received_state r L db.Conn queue handler handler-KeepsLists duration queue payload w h)
      ∙ handle-rest r db.Conn duration queue payload handler w1
      ∙ ap (λ x. x.1.rest) (handler-decoded payload e w1 k)

  -- Where a worker pops the event of a pending url, and no command of Redis, nor the lock, nor an
  -- UPDATE on a live context fails, Receive returns nil, the event has left the queue and `:tmp`, the
  -- row has the status, the file and the error of the download's end, and the event is at the left end
  -- of `:failed` exactly if the download returned an error or panicked. The download changes no row's
  -- status.
  pub download_event_settles :
      Reliable r L db.Conn
      → KeepsStatus db pg download oembed
      → Unlocks db pg download oembed
      → (duration queue payload : String) (e : UrlEvent) (w : World r db.Conn)
      → (r.brpoplpush queue (tmp_of queue) w.redis).0 ≡ ok payload
      → unmarshal payload ≡ ok e
      → status_at db pg download oembed e.id w.rest ≡ some "pending"
      → (lock_url db ctx (processing e) w.rest).0 ≡ ok tt
      → Settled queue payload e w (receive r db.Conn popped duration queue handler w)
  download_event_settles reliable keeps unlocks duration queue payload e w h k pending locks =
      let (l, before, returns, at_queue, at_tmp, at_failed, _) =
        receive_delivers r L db.Conn handler handler-KeepsLists reliable duration queue payload w
          h in
      let (out, row) =
        download_url_settles db pg download oembed keeps unlocks ctx e w.rest pending locks in
      let w1 = arrived r L db.Conn queue w in
      let ends = ap (λ x. x.0) (handler-decoded payload e w1 k) ∙ out in
      (
        l,
        before,
        returns,
        at_queue,
        at_tmp,
        at_failed
            ∙ ap (λ o. with_failure o payload (listed r L db.Conn w (failed_of queue))) ends
            ∙ with_failure-outcome _ payload (listed r L db.Conn w (failed_of queue)),
        ap (λ c. Option.map state_of (row_at db pg e.id c))
              (received-rest duration queue payload e w h k)
            ∙ row,
      )
