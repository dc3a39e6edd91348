-- ===== src/Manager/Server/Queues.antt =====
-- What CreateURL leaves in the database and in the queues.

use mathlib.Core.Option.{some-injective}
use youtube_ar.Base.{
  ℕ, ◌+◌, ◌==◌, if◌then◌else◌, none, [], ◌++◌, sym, Bool-cases, String, ◌∷◌, Result, ok, err,
  Result-cases, inl, inr, ◌≡◌, ◌≢◌, refl, ◌∙◌, ap, Context, str_eq, true, false, arith,
}
use youtube_ar.Model.{Url, NullInt64, no_int64, no_string}
use youtube_ar.Event.{UrlPayload, marshal}
use youtube_ar.Sql.{Querier, null_int64}
use youtube_ar.Sql.Meaning.{as_int}
use youtube_ar.Sql.Postgres.{Postgres}
use youtube_ar.Store
use youtube_ar.Store.{create_url_statement}
use youtube_ar.Redis.{Redis, RedisLists}
use youtube_ar.Broker.{World}
use youtube_ar.Broker.Lists.{listed}
use youtube_ar.Manager.Server.{create_url, url_of, event_of}

-- No LPUSH fails.
abbrev pub Pushes : Redis → Type 0
Pushes r = (k v : String) (s : r.State) → (r.lpush k v s).0 ≡ ok tt

abbrev retries_of : ℕ → NullInt64
retries_of n = if n == 0 then no_int64 else (record { valid = true; int64 = n })

module _ (r : Redis) (db : Querier) where
  -- CreateURL, as the store does it.
  pub store-create_url :
      (ctx : Context) (p : UrlPayload) (w : World r db.Conn) (v : Url)
      → (create_url r db ctx p w).0 ≡ ok v
      → ((Store.create_url db ctx (url_of p) w.rest).0 ≡ ok v)
        × ((create_url r db ctx p w).1.rest ≡ (Store.create_url db ctx (url_of p) w.rest).1)
  unfolding create_url
  store-create_url ctx p w v h = elim (Result-cases (Store.create_url db ctx (url_of p) w.rest).0) [
    | inl (u, e) ↦ ground (arith, e)
    | inr (x, e) ↦ ground (arith, e)
  ]

module _ (r : Redis) (L : RedisLists r) (db : Querier) where
  lpush_keeps :
      (k v j : String) (s : r.State) → str_eq j k ≡ false → L.list (r.lpush k v s).1 j ≡ L.list s j
  lpush_keeps k v j s h = elim (Result-cases (r.lpush k v s).0) [
    | inl (_, ran) ↦ L.lpush_ok k v j s ran ∙ rw h
    | inr (e, ran) ↦ L.lpush_err k v j s e ran
  ]

  -- CreateURL changes no list but the two queues, whether LPUSH fails or not.
  pub create_url-other :
      (ctx : Context) (p : UrlPayload) (w : World r db.Conn) (j : String)
      → str_eq j "download-url" ≡ false
      → str_eq j "get-oembed" ≡ false
      → listed r L db.Conn (create_url r db ctx p w).1 j ≡ listed r L db.Conn w j
  unfolding create_url
  create_url-other ctx p w j a b =
      elim (Result-cases (db.query_url ctx (create_url_statement (url_of p)) w.rest).0) [
        | inl (u, ran) ↦
            let text = marshal (event_of u) in
            let s = (r.lpush "download-url" text w.redis).1 in
            rw ran
              (lpush_keeps "get-oembed" text j s b ∙ lpush_keeps "download-url" text j w.redis a)
        | inr (e, ran) ↦ rw ran refl
      ]

module _ (r : Redis) (L : RedisLists r) (db : Querier) (pg : Postgres db) where
  -- The row of a payload: pending, under the next id, with the payload's url and its retries where they
  -- are not 0, and with nothing else.
  abbrev pub row_of : UrlPayload → World r db.Conn → Url
  row_of p w = record {
    id = (pg.tables w.rest).next_id;
    url = p.url;
    created_at = pg.clock w.rest;
    updated_at = pg.clock w.rest;
    status = "pending";
    error = no_string;
    file = no_string;
    retries = if p.retries == 0 then no_int64 else (record { valid = true; int64 = p.retries });
    logs = [];
    oembed = none;
  }

  -- The tables with the new row.
  abbrev pub Inserted : UrlPayload → World r db.Conn → World r db.Conn → Type 0
  Inserted p w w' =
      let t = pg.tables w.rest in
      pg.tables w'.rest ≡ record t {
        urls = t.urls ++ record { url = row_of p w; deleted_at = none } ∷ [];
        next_id = t.next_id + 1;
      }

  -- The text of the event of the new row, with its id and its url.
  abbrev pub event_text : UrlPayload → World r db.Conn → String
  event_text p w = marshal (record { id = (pg.tables w.rest).next_id; url = p.url })

  retries_scanned : (n : ℕ) → as_int (null_int64 (retries_of n)) ≡ retries_of n
  retries_scanned n = elim (Bool-cases (n == 0)) [ inl e ↦ rw e refl | inr e ↦ rw e refl ]

  inserted_row :
      (ctx : Context) (p : UrlPayload) (w : World r db.Conn) (u : Url)
      → (db.query_url ctx (create_url_statement (url_of p)) w.rest).0 ≡ ok u
      → (u ≡ row_of p w)
        × (pg.tables (db.query_url ctx (create_url_statement (url_of p)) w.rest).1
            ≡ record (pg.tables w.rest) {
              urls = (pg.tables w.rest).urls ++ record { url = row_of p w; deleted_at = none } ∷ [];
              next_id = (pg.tables w.rest).next_id + 1;
            })
  inserted_row ctx p w u ran =
      let (head, after) = pg.query_url_ok ctx (create_url_statement (url_of p)) w.rest u ran in
      let row : NullInt64 → Url = λ n. record (row_of p w) { retries = n } in
      let t = pg.tables w.rest in
      let same = retries_scanned p.retries in
      (
        sym (some-injective _ _ head) ∙ ap row same,
        after
            ∙ ap
                (λ n. record t {
                  urls = t.urls ++ record { url = row n; deleted_at = none } ∷ [];
                  next_id = t.next_id + 1;
                })
                same,
      )

  -- With a url, its row is inserted and its event is at the left end of both queues; with an error,
  -- neither the tables nor a list has changed.
  abbrev pub Created : UrlPayload → World r db.Conn → Result Url × World r db.Conn → Type 0
  Created p w (ok u, w') =
      (u ≡ row_of p w)
      × Inserted p w w'
      × (listed r L db.Conn w' "download-url"
          ≡ event_text p w ∷ listed r L db.Conn w "download-url")
      × (listed r L db.Conn w' "get-oembed" ≡ event_text p w ∷ listed r L db.Conn w "get-oembed")
  Created p w (err e, w') =
      (pg.tables w'.rest ≡ pg.tables w.rest)
      × ((j : String) → listed r L db.Conn w' j ≡ listed r L db.Conn w j)

  lpush_here :
      (k v : String) (s : r.State)
      → (r.lpush k v s).0 ≡ ok tt
      → str_eq k k ≡ true
      → L.list (r.lpush k v s).1 k ≡ v ∷ L.list s k
  lpush_here k v s h same = L.lpush_ok k v k s h ∙ rw same refl

  lpush_there :
      (k v j : String) (s : r.State)
      → (r.lpush k v s).0 ≡ ok tt
      → str_eq j k ≡ false
      → L.list (r.lpush k v s).1 j ≡ L.list s j
  lpush_there k v j s h other = L.lpush_ok k v j s h ∙ rw other refl

  lpush_failed :
      (k v j : String) (s : r.State)
      → (r.lpush k v s).0 ≢ ok tt
      → L.list (r.lpush k v s).1 j ≡ L.list s j
  lpush_failed k v j s h = elim (Result-cases (r.lpush k v s).0) [
    | inl (_, ran) ↦ absurd (h ran)
    | inr (e, ran) ↦ L.lpush_err k v j s e ran
  ]

  -- Where no LPUSH fails, CreateURL returns the row that it has inserted, which is pending, under the
  -- next id and with the url and the retries of the payload, and the event with that id and url is at
  -- the left end of both queues; or it returns an error, and neither the tables nor any list has
  -- changed.
  pub create_url-Created :
      Pushes r
      → (ctx : Context) (p : UrlPayload) (w : World r db.Conn)
      → Created p w (create_url r db ctx p w)
  unfolding create_url
  create_url-Created pushes ctx p w =
      elim (Result-cases (db.query_url ctx (create_url_statement (url_of p)) w.rest).0) [
        | inl (u, ran) ↦
            let text = marshal (event_of u) in
            let s = (r.lpush "download-url" text w.redis).1 in
            let (row, after) = inserted_row ctx p w u ran in
            let same : text ≡ event_text p w = ap (λ (v : Url). marshal (event_of v)) row in
            rw ran (
              row,
              after,
              lpush_there "get-oembed" text "download-url" s (pushes _ _ _) refl
                  ∙ lpush_here "download-url" text w.redis (pushes _ _ _) refl
                  ∙ ap (λ t. t ∷ listed r L db.Conn w "download-url") same,
              lpush_here "get-oembed" text s (pushes _ _ _) refl
                  ∙ ap (λ l. text ∷ l)
                      (lpush_there "download-url" text "get-oembed" w.redis (pushes _ _ _) refl)
                  ∙ ap (λ t. t ∷ listed r L db.Conn w "get-oembed") same,
            )
        | inr (e, ran) ↦ rw ran (pg.query_url_err ctx _ w.rest e ran, λ j. refl)
      ]

  -- Where the INSERT succeeds and every LPUSH fails, CreateURL returns the new row without an error,
  -- the row is inserted, and no list has changed: no queue has its event.
  pub create_url_unsent :
      ((k v : String) (s : r.State) → (r.lpush k v s).0 ≢ ok tt)
      → (ctx : Context) (p : UrlPayload) (w : World r db.Conn) (u : Url) (j : String)
      → (db.query_url ctx (create_url_statement (url_of p)) w.rest).0 ≡ ok u
      → ((create_url r db ctx p w).0 ≡ ok (row_of p w))
        × Inserted p w (create_url r db ctx p w).1
        × (listed r L db.Conn (create_url r db ctx p w).1 j ≡ listed r L db.Conn w j)
  unfolding create_url
  create_url_unsent fails ctx p w u j ran =
      let text = marshal (event_of u) in
      let s = (r.lpush "download-url" text w.redis).1 in
      let (row, after) = inserted_row ctx p w u ran in
      rw ran (
        ap ok row,
        after,
        lpush_failed "get-oembed" text j s (fails _ _ _)
            ∙ lpush_failed "download-url" text j w.redis (fails _ _ _),
      )
