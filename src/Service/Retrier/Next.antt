-- ===== src/Service/Retrier/Next.antt =====
-- What an automatic retry leaves in the lists.
use youtube_ar.Base.{
  String, List, [], ◌∷◌, ◌++◌, Option, none, some, Result, ok, err, and_then, pure, Result-cases,
  inl, inr, ◌≡◌, refl, sym, ◌∙◌, ap, Context, Bool-cases, str_eq, if◌then◌else◌,
}
use youtube_ar.Model.{Url, should_retry}
use youtube_ar.Event.{UrlEvent, marshal}
use youtube_ar.Sql.{Querier}
use youtube_ar.Sql.Postgres.{Postgres}
use youtube_ar.Store.{get_url, get_url_statement}
use youtube_ar.Redis.{Redis, RedisLists}
use youtube_ar.Broker.{World, failed_of, pop_next_failed}
use youtube_ar.Broker.Lists.{listed}
use youtube_ar.Manager.Server.{event_of}
use youtube_ar.Manager.Server.Queues.{Pushes, Created, create_url-Created, create_url-other}
use youtube_ar.Service.Retrier.{
  retry, retry_payload, retry_if_due, at_limit, next_popped, retry_next_download_url,
}

module _ (r : Redis) (L : RedisLists r) (db : Querier) (pg : Postgres db)
    (unmarshal : String → Result UrlEvent) where
  abbrev at : World r db.Conn → String → List String
  at w j = listed r L db.Conn w j

  -- The list of failed downloads stays, and the queue has the event of the url that is created, if
  -- one is.
  abbrev pub Requeued : World r db.Conn → Result (Option Url) × World r db.Conn → Type 0
  Requeued w (ok (some u), w') =
      (at w' (failed_of "download-url") ≡ at w (failed_of "download-url"))
      × (at w' "download-url" ≡ marshal (event_of u) ∷ at w "download-url")
  Requeued w (ok none, w') =
      (at w' (failed_of "download-url") ≡ at w (failed_of "download-url"))
      × (at w' "download-url" ≡ at w "download-url")
  Requeued w (err e, w') =
      (at w' (failed_of "download-url") ≡ at w (failed_of "download-url"))
      × (at w' "download-url" ≡ at w "download-url")

  -- The queue after a retry.
  abbrev pub requeued : Result (Option Url) → List String → List String
  requeued (ok (some u)) l = marshal (event_of u) ∷ l
  requeued (ok none) l = l
  requeued (err e) l = l

  requeued_parts :
      (w : World r db.Conn) (x : Result (Option Url) × World r db.Conn)
      → Requeued w x
      → (at x.1 (failed_of "download-url") ≡ at w (failed_of "download-url"))
        × (at x.1 "download-url" ≡ requeued x.0 (at w "download-url"))
  requeued_parts w (ok (some u), w') h = h
  requeued_parts w (ok none, w') h = h
  requeued_parts w (err e, w') h = h

  module _ (pushes : Pushes r) (ctx : Context) where
    retry-Created :
        (u : Url) (w : World r db.Conn)
        → Created r L db pg (retry_payload u) w (retry r db unmarshal ctx u w)
    unfolding retry
    retry-Created u w = create_url-Created r L db pg pushes ctx (retry_payload u) w

    retry-other :
        (u : Url) (w : World r db.Conn)
        → at (retry r db unmarshal ctx u w).1 (failed_of "download-url")
          ≡ at w (failed_of "download-url")
    unfolding retry
    retry-other u w =
        create_url-other r L db ctx (retry_payload u) w (failed_of "download-url") refl refl

    mapped-Requeued :
        (u : Url) (w : World r db.Conn) (x : Result Url × World r db.Conn)
        → Created r L db pg (retry_payload u) w x
        → at x.1 (failed_of "download-url") ≡ at w (failed_of "download-url")
        → Requeued w (and_then x (λ u'. pure (some u')))
    mapped-Requeued u w (ok v, w') (row, _, queued, _) other =
        (other, queued ∙ ap (λ (x : Url). marshal (event_of x) ∷ at w "download-url") (sym row))
    mapped-Requeued u w (err e, w') (_, same) other = (other, same _)

    retry_if_due-Requeued :
        (u : Url) (w : World r db.Conn) → Requeued w (retry_if_due r db unmarshal ctx u w)
    unfolding retry_if_due
    retry_if_due-Requeued u w = elim (Bool-cases (should_retry u)) [
      | inr quiet ↦ rw quiet (refl, refl)
      | inl due ↦ elim (Bool-cases (at_limit u)) [
        | inl limited ↦ rw (due, limited) (refl, refl)
        | inr below ↦
            rw (due, below)
              (mapped-Requeued u w (retry r db unmarshal ctx u w) (retry-Created u w)
                (retry-other u w))
      ]
    ]

    abbrev popped_world : World r db.Conn → World r db.Conn
    popped_world w = (pop_next_failed r db.Conn "download-url" w).1

    next_popped-Requeued :
        (b : String) (w : World r db.Conn) → Requeued w (next_popped r db unmarshal ctx (ok b, w))
    unfolding get_url
    next_popped-Requeued b w = elim (Result-cases (unmarshal b)) [
      | inr (e, bad) ↦ rw bad (refl, refl)
      | inl (e, good) ↦ elim (Result-cases (db.query_url ctx (get_url_statement e.id) w.rest).0) [
        | inr (x, lost) ↦ rw good (rw lost (refl, refl))
        | inl (u, found) ↦ rw good (rw found (retry_if_due-Requeued u _))
      ]
    ]

    -- The retrier's call, where RPOP answers with a payload.
    popped_state :
        (b : String) (w : World r db.Conn)
        → (r.rpop (failed_of "download-url") w.redis).0 ≡ ok b
        → retry_next_download_url r db unmarshal ctx w
          ≡ next_popped r db unmarshal ctx (ok b, popped_world w)
    unfolding retry_next_download_url pop_next_failed
    popped_state b w h = ap (λ x. next_popped r db unmarshal ctx (x, popped_world w)) h

    popped_failed :
        (l : List String) (w : World r db.Conn)
        → L.list (r.rpop (failed_of "download-url") w.redis).1 (failed_of "download-url") ≡ (
            if str_eq (failed_of "download-url") (failed_of "download-url")
            then l
            else at w (failed_of "download-url"))
        → at (popped_world w) (failed_of "download-url") ≡ l
    unfolding pop_next_failed
    popped_failed l w h = h

    popped_queue :
        (l : List String) (w : World r db.Conn)
        → L.list (r.rpop (failed_of "download-url") w.redis).1 "download-url"
          ≡ (if str_eq "download-url" (failed_of "download-url") then l else at w "download-url")
        → at (popped_world w) "download-url" ≡ at w "download-url"
    unfolding pop_next_failed
    popped_queue l w h = h

    -- What RetryNextDownloadURL leaves, where RPOP answers with a payload.
    abbrev pub Popped : String → World r db.Conn → Result (Option Url) × World r db.Conn → Type 0
    Popped b w x =
        (l : List String) × (at w (failed_of "download-url") ≡ l ++ b ∷ [])
        × (at x.1 (failed_of "download-url") ≡ l)
        × (at x.1 "download-url" ≡ requeued x.0 (at w "download-url"))

    -- Where RPOP answers with a payload and no LPUSH fails, the payload is off the right end of the
    -- list of failed downloads, whatever follows, and the rest of the list stays. The queue has one
    -- event more, that of the url which the retrier creates, or is as before where it creates none, be
    -- it that the row is not to be retried or that the call returns an error.
    pub retry_next_download_url-Popped :
        (b : String) (w : World r db.Conn)
        → (r.rpop (failed_of "download-url") w.redis).0 ≡ ok b
        → Popped b w (retry_next_download_url r db unmarshal ctx w)
    retry_next_download_url-Popped b w h =
        let (l, before, after) = L.rpop_ok (failed_of "download-url") b w.redis h in
        let (at_failed, at_queue) =
          requeued_parts (popped_world w) _ (next_popped-Requeued b (popped_world w)) in
        rw (popped_state b w h) (
          l,
          before,
          at_failed ∙ popped_failed l w (after _),
          at_queue ∙ ap (requeued _) (popped_queue l w (after _)),
        )
