-- ===== src/Service/Retrier/Bound.antt =====
-- Automatic retries are bounded.
use mathlib.Core.Option.{some-injective}
use youtube_ar.Base.{
  ℕ, zero, suc, ◌+◌, ◌<◌, ◌≤◌, String, none, some, ok, err, Result, Result-cases, inl, inr, ◌≡◌,
  refl, ◌∙◌, ap, sym, arith, Context, Bool, true, false, if◌then◌else◌, and_then, pure, M, ◌>>=◌,
}
use youtube_ar.Model.{Url, should_retry}
use youtube_ar.Event.{UrlEvent, UrlPayload}
use youtube_ar.Sql.{Querier}
use youtube_ar.Sql.Postgres.{Postgres}
use youtube_ar.Store.{create_url_statement}
use youtube_ar.Redis.{Redis}
use youtube_ar.Broker.{World}
use youtube_ar.Manager.Server.{create_url, url_of}
use youtube_ar.Service.Retrier.{retry_if_due, retry_payload, at_limit, two_63}

module _ (r : Redis) (db : Querier) (pg : Postgres db) (unmarshal : String → Result UrlEvent) where
  -- The row that CreateURL returns has the url and the retries of its payload.
  pub create_url_row :
      (ctx : Context) (p : UrlPayload) (w : World r db.Conn) (u : Url)
      → (create_url r db ctx p w).0 ≡ ok u
      → (u.url ≡ p.url) × (u.retries ≡ (url_of p).retries) × (u.status ≡ "pending")
  unfolding create_url
  create_url_row ctx p w u h =
      elim (Result-cases (db.query_url ctx (create_url_statement (url_of p)) w.rest).0) [
        | inr (e, ran) ↦ absurd (ground arith)
        | inl (v, ran) ↦
            let same : some v ≡ some u = ground arith in
            let row = sym (some-injective _ _ ((pg.query_url_ok ctx _ w.rest v ran).0 ∙ same)) in
            rw row (refl, ground arith, refl)
      ]

  mapped_ok :
      (x : Result Url × World r db.Conn) (u' : Url)
      → (and_then x (λ u. pure (some u))).0 ≡ ok (some u')
      → x.0 ≡ ok u'
  mapped_ok (ok v, w) u' h = ground arith
  mapped_ok (err e, w) u' h = absurd (ground arith)

  due_ok :
      (due limited : Bool) (k : M (World r db.Conn) Url) (w : World r db.Conn) (u' : Url)
      → ((if due then if limited then pure none else (k >>= λ u. pure (some u)) else pure none) w).0
        ≡ ok (some u')
      → (due ≡ true) × (limited ≡ false) × ((k w).0 ≡ ok u')
  due_ok true false k w u' h = (refl, refl, mapped_ok (k w) u' h)
  due_ok true true k w u' h = absurd (ground arith)
  due_ok false limited k w u' h = absurd (ground arith)

  retry_if_due_ok :
      (ctx : Context) (u u' : Url) (w : World r db.Conn)
      → (retry_if_due r db unmarshal ctx u w).0 ≡ ok (some u')
      → (should_retry u ≡ true)
        × (at_limit u ≡ false)
        × ((create_url r db ctx (retry_payload u) w).0 ≡ ok u')
  unfolding retry_if_due
  retry_if_due_ok ctx u u' w h =
      due_ok (should_retry u) (at_limit u) (create_url r db ctx (retry_payload u)) w u' h

  -- Where the count of a row's retries is not negative, the retrier creates a url for it only if its
  -- log calls for a retry and the count is below five; the new row has the same url, is pending, and
  -- counts one retry more.
  pub retry_if_due_bounded :
      (ctx : Context) (u u' : Url) (w : World r db.Conn)
      → u.retries.int64 < two_63
      → (retry_if_due r db unmarshal ctx u w).0 ≡ ok (some u')
      → (should_retry u ≡ true)
        × (u.retries.int64 < 5)
        × (u'.url ≡ u.url)
        × (u'.retries ≡ record { valid = true; int64 = u.retries.int64 + 1 })
        × (u'.status ≡ "pending")
  retry_if_due_bounded ctx u u' w small h =
      let (due, below, created) = retry_if_due_ok ctx u u' w h in
      let (url, retries, pending) = create_url_row ctx (retry_payload u) w u' created in
      let five : u.retries.int64 < 5 = ground arith in
      (due, five, url, retries ∙ ground arith, pending)

  -- A chain of automatic retries. Each is of the row that the one before created, as it is read again
  -- later: its download has run since, which keeps the url and the retries of the row.
  pub data Retried (u : Url) : ℕ → Url → Type 0 where
    first : Retried u zero u
    again :
        {n : ℕ} {v v' v'' : Url} (ctx : Context) (w : World r db.Conn)
        → Retried u n v
        → (retry_if_due r db unmarshal ctx v w).0 ≡ ok (some v')
        → v''.url ≡ v'.url
        → v''.retries ≡ v'.retries
        → Retried u (suc n) v''

  Retried-count :
      {u v : Url} {n : ℕ}
      → u.retries.int64 ≤ 5
      → Retried u n v
      → (v.retries.int64 ≡ u.retries.int64 + n) × (v.retries.int64 ≤ 5) × (v.url ≡ u.url)
  Retried-count small first = (omega arith, small, refl)
  Retried-count small (again {v = v} {v' = v'} {v'' = v''} ctx w chain h same_url same_retries) =
      let (count, at_most, same) = Retried-count small chain in
      let (_, five, url, retries, _) = retry_if_due_bounded ctx v v' w (omega arith) h in
      let n' : v''.retries.int64 ≡ v.retries.int64 + 1 =
        ap (λ x. x.int64) (same_retries ∙ retries) in
      (omega arith, omega arith, same_url ∙ url ∙ same)

  -- From a row that has not been retried, at most five automatic retries follow one another, each of the
  -- row that the one before created, after its download, and all of them are of its url.
  pub Retried-le-five :
      {u v : Url} {n : ℕ} → u.retries.int64 ≡ 0 → Retried u n v → (n ≤ 5) × (v.url ≡ u.url)
  Retried-le-five fresh chain =
      let (count, at_most, same) = Retried-count (omega arith) chain in (omega arith, same)
