-- ===== src/Worker/Posted.antt =====
-- A url from its creation by the API's manager to the end of its download by a worker.
use mathlib.Core.Option
use mathlib.Core.Option.{some-injective}
use youtube_ar.Base.{
  ok-injective, ℕ, ◌+◌, String, List, [], ◌∷◌, ◌++◌, Option, some, Result, ok, err, ◌≡◌, ◌≢◌, refl,
  sym, ap, ◌∙◌, arith, Context, head?, length, length-append, ◌==◌, false, ==_refl,
}
use youtube_ar.Model.{Url}
use youtube_ar.Event.{UrlEvent, UrlPayload, marshal}
use youtube_ar.Sql.{Querier}
use youtube_ar.Sql.Meaning.{UrlRow, Tables, updated}
use youtube_ar.Sql.Postgres.{Postgres}
use youtube_ar.Store
use youtube_ar.Store.{lock_url, create_url_statement}
use youtube_ar.Store.Ids.{Ascending, Ascending-le, AreNumbered}
use youtube_ar.Store.Rows.{find_row}
use youtube_ar.Redis.{Redis, RedisLists}
use youtube_ar.Broker.{World, popped, tmp_of, receive}
use youtube_ar.Broker.Lists.{listed, Reliable}
use youtube_ar.Manager.Server.{create_url, event_of, url_of}
use youtube_ar.Manager.Server.Queues.{Created, create_url-Created, store-create_url}
use youtube_ar.Manager.Worker.{Downloader, OEmbed, processing}
use youtube_ar.Manager.Worker.Settles.{KeepsStatus, Unlocks, status_at}
use youtube_ar.Worker.{download_url_handler}
use youtube_ar.Worker.Delivery.{Settled, download_event_settles}
use youtube_ar.Worker.Drain.{Answers}

only_one : (a b : String) (l : List String) → a ∷ [] ≡ l ++ b ∷ [] → a ≡ b
only_one a b [] h = some-injective _ _ (ap head? h)
only_one a b (x ∷ l) h = absurd (omega (arith, ap (length {0}) h, length-append l (b ∷ [])))

cons_ne_nil : (a : String) → ◌≢◌ {A = List String} (a ∷ []) []
cons_ne_nil a h = cc

find_row-last :
    (lo id : ℕ) (rows : List UrlRow) (r : UrlRow)
    → Ascending lo rows id
    → r.url.id ≡ id
    → find_row id (rows ++ r ∷ []) ≡ some r
find_row-last lo id [] r h e = rw (e, ==_refl id) refl
find_row-last lo id (x ∷ rows) r (p, h) e =
    let below = Ascending-le (x.url.id + 1) rows id h in
    let other : (x.url.id == id) ≡ false = ground arith in
    rw other (find_row-last (x.url.id + 1) id rows r h e)

module _ (r : Redis) (L : RedisLists r) (db : Querier) (pg : Postgres db) (download : Downloader db)
    (oembed : OEmbed) where
  created_pending :
      (ctx : Context) (p : UrlPayload) (w : World r db.Conn) (v : Url)
      → AreNumbered (pg.tables w.rest)
      → (create_url r db ctx p w).0 ≡ ok v
      → status_at db pg download oembed v.id (create_url r db ctx p w).1.rest ≡ some "pending"
  unfolding Store.create_url
  created_pending ctx p w v numbered h =
      let (inserted, rest) = store-create_url r db ctx p w v h in
      let st = create_url_statement (url_of p) in
      let t = pg.tables w.rest in
      let (head, after) = pg.query_url_ok ctx st w.rest v inserted in
      let same : v.id ≡ t.next_id = ap (λ (u : Url). u.id) (sym (some-injective _ _ head)) in
      let status : Option UrlRow → Option String = Option.map (λ x. x.url.status) in
      ap (λ c. status (find_row v.id (pg.tables c).urls)) rest
      ∙ ap (λ (x : Tables). status (find_row v.id x.urls)) after
      ∙ ap (λ n. status (find_row n (updated pg.search (pg.clock w.rest) st t).urls)) same
      ∙ ap status (find_row-last 1 t.next_id t.urls _ numbered refl)

  Created-waiting :
      (p : UrlPayload) (w : World r db.Conn) (v : Url) (x : Result Url × World r db.Conn)
      → x.0 ≡ ok v
      → Created r L db pg p w x
      → listed r L db.Conn x.1 "download-url"
        ≡ marshal (event_of v) ∷ listed r L db.Conn w "download-url"
  Created-waiting p w v (ok u, w') h (row, _, waits, _) =
      waits
      ∙ ap (λ (a : Url). marshal (event_of a) ∷ listed r L db.Conn w "download-url")
          (sym row ∙ ok-injective u v h)
  Created-waiting p w v (err e, w') h _ = cc

  -- A url that CreateURL returns, in tables whose ids are numbered and with no other event waiting for a
  -- download, is downloaded by one call of Receive: its event has left the queue and `:tmp`, and its row
  -- has the status, the file and the error of the download's end, whichever that is; the event is in
  -- `:failed` exactly if the download failed or panicked. No command of Redis, nor the lock, nor an UPDATE
  -- on a live context fails, BRPOPLPUSH answers where the queue is not empty, the JSON decoder reads
  -- the event as it was printed, and the download changes no row's status.
  pub created_event_settles :
      Reliable r L db.Conn
      → Answers r L
      → KeepsStatus db pg download oembed
      → Unlocks db pg download oembed
      → (unmarshal : String → Result UrlEvent)
      → (ctx ctx' : Context) (p : UrlPayload) (duration : String) (w : World r db.Conn) (v : Url)
      → AreNumbered (pg.tables w.rest)
      → listed r L db.Conn w "download-url" ≡ []
      → (create_url r db ctx p w).0 ≡ ok v
      → unmarshal (marshal (event_of v)) ≡ ok (event_of v)
      → let w' = (create_url r db ctx p w).1 in
        (lock_url db ctx' (processing (event_of v)) w'.rest).0 ≡ ok tt
        → Settled r L db pg download oembed unmarshal ctx' "download-url"
            (marshal (event_of v))
            (event_of v)
            w'
            (receive r db.Conn popped duration "download-url"
              (download_url_handler r db download oembed unmarshal ctx')
              w')
  created_event_settles reliable answers keeps unlocks unmarshal ctx ctx' p duration w v numbered
        idle h decodes locks =
      let w' = (create_url r db ctx p w).1 in
      let waits : listed r L db.Conn w' "download-url" ≡ marshal (event_of v) ∷ [] =
        Created-waiting p w v (create_url r db ctx p w) h
          (create_url-Created r L db pg reliable.0 ctx p w)
        ∙ ap (λ k. marshal (event_of v) ∷ k) idle in
      let (payload, answer) =
        answers "download-url" (tmp_of "download-url") w'.redis
          (λ e. cons_ne_nil _ (sym waits ∙ e)) in
      let (l, before, _) =
        L.brpoplpush_ok "download-url" (tmp_of "download-url") payload w'.redis answer in
      let same = only_one _ _ l (sym waits ∙ before) in
      download_event_settles r L db pg download oembed unmarshal ctx' reliable keeps unlocks
        duration "download-url" (marshal (event_of v)) (event_of v) w' (answer ∙ ap ok (sym same))
        decodes (created_pending ctx p w v numbered h) locks
