-- ===== src/Service/Playlist/Atomic.antt =====
-- The transaction that creates a video and its url: all or nothing.
use youtube_ar.Base.{
  ℕ, String, ok, err, GoError, Result-cases, inl, inr, ◌⊎◌, ◌≡◌, ◌≢◌, refl, sym, ◌∙◌, ap, arith,
  Context, err-ne-ok, M, Result,
}
use youtube_ar.Model.{YoutubeVideo}
use youtube_ar.Sql.{Querier, Statement}
use youtube_ar.Sql.Meaning.{Tables, updated}
use youtube_ar.Sql.Postgres.{Postgres}
use youtube_ar.Store.{create_url_statement, create_youtube_video_statement}
use youtube_ar.Store.Transaction.{transaction, rolled_back, rolled_back_commit, committed, ran}
use youtube_ar.Redis.{Redis}
use youtube_ar.Broker.{World}
use youtube_ar.Manager.Server.{on_store, url_of}
use youtube_ar.Service.Playlist.{new_video, watch_payload, create_video, create_in_transaction}

module _ (r : Redis) (db : Querier) (pg : Postgres db) (ctx : Context) (youtube_id : String) where
  abbrev video_statement : Statement
  video_statement = create_youtube_video_statement (new_video youtube_id)

  abbrev watch_statement : Statement
  watch_statement = create_url_statement (url_of (watch_payload youtube_id))

  -- The tables with a new row for the video, and one for its url.
  abbrev pub both_added : (now now' : ℕ) → Tables → Tables
  both_added now now' t =
      updated pg.search now' watch_statement (updated pg.search now video_statement t)

  abbrev pub tables_of : World r db.Conn → Tables
  tables_of w = pg.tables w.rest

  create_video_base :
      (w : World r db.Conn) → pg.base (create_video r db ctx youtube_id w).1.rest ≡ pg.base w.rest
  unfolding create_video
  create_video_base w = elim (Result-cases (db.query_youtube_video ctx video_statement w.rest).0) [
    | inr (e, h) ↦ rw h (pg.query_video_base ctx video_statement w.rest)
    | inl (v, h) ↦
        rw h
          (elim (Result-cases
            (db.query_url ctx watch_statement
              (db.query_youtube_video ctx video_statement w.rest).1).0) [
                | inr (e, k) ↦ rw k (
                    pg.query_url_base ctx watch_statement _
                    ∙ pg.query_video_base ctx video_statement w.rest)
                | inl (u, k) ↦ rw k (
                    pg.query_url_base ctx watch_statement _
                    ∙ pg.query_video_base ctx video_statement w.rest)
              ])
  ]

  create_video_ok :
      (w : World r db.Conn) (v : YoutubeVideo)
      → (create_video r db ctx youtube_id w).0 ≡ ok v
      → (now : ℕ) × (now' : ℕ) × (tables_of (create_video r db ctx youtube_id w).1
          ≡ both_added now now' (tables_of w))
  unfolding create_video
  create_video_ok w v h =
      elim (Result-cases (db.query_youtube_video ctx video_statement w.rest).0) [
        | inr (e, k) ↦ absurd (ground arith)
        | inl (x, k) ↦
            elim (Result-cases
              (db.query_url ctx watch_statement
                (db.query_youtube_video ctx video_statement w.rest).1).0) [
                  | inr (e, j) ↦ absurd (ground arith)
                  | inl (u, j) ↦ (
                    pg.clock w.rest,
                    pg.clock (db.query_youtube_video ctx video_statement w.rest).1,
                    rw (k, j)
                        ((pg.query_url_ok ctx watch_statement _ u j).1
                          ∙ ap (updated pg.search _ watch_statement)
                              ((pg.query_video_ok ctx video_statement w.rest x k).1)),
                  )
                ]
      ]

  create_in_transaction_lem :
      (w : World r db.Conn)
      → create_in_transaction r db ctx youtube_id w
        ≡ transaction
            (on_store r db (db.begin_tx ctx))
            (on_store r db db.commit)
            (on_store r db db.rollback)
            (create_video r db ctx youtube_id)
            w
  unfolding create_in_transaction
  create_in_transaction_lem w = refl

  -- A commit that fails.
  abbrev pub Uncommitted : Type 0
  Uncommitted = (c : db.Conn) × ((db.commit c).0 ≢ ok tt)

  -- What the end of the transaction leaves: the tables of its beginning, after an error or a commit
  -- that fails, or those with both rows.
  abbrev pub AllOrNothing : World r db.Conn → Result YoutubeVideo × World r db.Conn → Type 0
  AllOrNothing w (ok v, w') =
      (Uncommitted × (tables_of w' ≡ tables_of w))
      ⊎ ((now : ℕ) × (now' : ℕ) × (tables_of w' ≡ both_added now now' (tables_of w)))
  AllOrNothing w (err e, w') = tables_of w' ≡ tables_of w

  abbrev pub begin_w : M (World r db.Conn) (Unit {0})
  begin_w = on_store r db (db.begin_tx ctx)

  abbrev commit_w : M (World r db.Conn) (Unit {0})
  commit_w = on_store r db db.commit

  abbrev rollback_w : M (World r db.Conn) (Unit {0})
  rollback_w = on_store r db db.rollback

  rolled_back-AllOrNothing :
      (w w2 : World r db.Conn) (e : GoError)
      → pg.base w2.rest ≡ tables_of w
      → AllOrNothing w (rolled_back begin_w commit_w rollback_w e (rollback_w w2))
  rolled_back-AllOrNothing w w2 e h = elim (Result-cases (db.rollback w2.rest).0) [
    | inl (_, k) ↦ rw k (pg.rollback_any w2.rest ∙ h)
    | inr (_, k) ↦ rw k (pg.rollback_any w2.rest ∙ h)
  ]

  rolled_back_commit-AllOrNothing :
      (w w2 : World r db.Conn) (v : YoutubeVideo)
      → pg.base w2.rest ≡ tables_of w
      → Uncommitted
      → AllOrNothing w (rolled_back_commit begin_w commit_w rollback_w v (rollback_w w2))
  rolled_back_commit-AllOrNothing w w2 v h fails = elim (Result-cases (db.rollback w2.rest).0) [
    | inl (_, k) ↦ rw k (inl (fails, pg.rollback_any w2.rest ∙ h))
    | inr (_, k) ↦ rw k (pg.rollback_any w2.rest ∙ h)
  ]

  committed-AllOrNothing :
      (w w2 : World r db.Conn) (v : YoutubeVideo)
      → pg.base w2.rest ≡ tables_of w
      → ((now : ℕ) × (now' : ℕ) × (tables_of w2 ≡ both_added now now' (tables_of w)))
      → AllOrNothing w (committed begin_w commit_w rollback_w v (commit_w w2))
  committed-AllOrNothing w w2 v h (now, now', both) = elim (Result-cases (db.commit w2.rest).0) [
    | inl (_, k) ↦ rw k (inr (now, now', pg.commit_ok w2.rest k ∙ both))
    | inr (e, k) ↦ rw k (
        rolled_back_commit-AllOrNothing w (commit_w w2).1 v ((pg.commit_err w2.rest e k).1 ∙ h)
          (w2.rest, λ j. err-ne-ok e tt (sym k ∙ j)))
  ]

  ran-AllOrNothing :
      (w w1 : World r db.Conn)
      → pg.base w1.rest ≡ tables_of w
      → tables_of w1 ≡ tables_of w
      → AllOrNothing w (ran begin_w commit_w rollback_w (create_video r db ctx youtube_id w1))
  ran-AllOrNothing w w1 h same = elim (Result-cases (create_video r db ctx youtube_id w1).0) [
    | inl (v, k) ↦
        let (now, now', both) = create_video_ok w1 v k in
        rw k (
          committed-AllOrNothing w _ v (create_video_base w1 ∙ h)
            (now, now', both ∙ ap (both_added now now') same))
    | inr (e, k) ↦ rw k (rolled_back-AllOrNothing w _ e (create_video_base w1 ∙ h))
  ]

  begun-AllOrNothing :
      (w : World r db.Conn)
      → AllOrNothing w
          (transaction begin_w commit_w rollback_w (create_video r db ctx youtube_id) w)
  unfolding transaction
  begun-AllOrNothing w = elim (Result-cases (db.begin_tx ctx w.rest).0) [
    | inl (_, k) ↦
        let (same, at_base) = pg.begin_ok ctx w.rest k in
        rw k (ran-AllOrNothing w (begin_w w).1 at_base same)
    | inr (e, k) ↦ rw k (pg.begin_err ctx w.rest e k)
  ]

  -- The transaction of the playlist loader is all or nothing: if it returns an error, the tables are
  -- as they were when it began; if not, they are as they were, and some commit fails, or they have one
  -- new row for the video and one for its url, and no other change.
  pub create_in_transaction-AllOrNothing :
      (w : World r db.Conn) → AllOrNothing w (create_in_transaction r db ctx youtube_id w)
  create_in_transaction-AllOrNothing w = rw create_in_transaction_lem (begun-AllOrNothing w)
