-- ===== src/Manager/Worker/Settles.antt =====
-- What DownloadURL leaves in the row of its event.
use mathlib.Core.Option
use mathlib.Core.Option.{none-ne-some, some-injective}
use youtube_ar.Base.{
  ℕ, String, List, [], ◌∷◌, Option-cases, done, Option, some, true, ok, err, Result, inl, inr, ◌≡◌,
  refl, ◌∙◌, ap, arith, Context, live, error_text, ==_refl,
}
use youtube_ar.Model.{Url, NullString, no_string}
use youtube_ar.Event.{UrlEvent}
use youtube_ar.Sql.{Querier}
use youtube_ar.Sql.Meaning.{UrlRow}
use youtube_ar.Sql.Postgres.{Postgres}
use youtube_ar.Store.{lock_url, unlock_url}
use youtube_ar.Store.Rows.{
  find_row, row_at, locked_row, unlocked_row, row_at-lock_url, row_at-unlock_url,
}
use youtube_ar.Manager.Worker.{
  Download, finished, crashed, Downloader, OEmbed, settle, outcome, unlock_context, processing,
  download_url, download_locked, locked,
}

-- A row's status, file and error.
pub record State : Type 0 where
  pub status : String
  pub file : NullString
  pub error : NullString

abbrev pub state_of : UrlRow → State
state_of r = record { status = r.url.status; file = r.url.file; error = r.url.error }

abbrev pub valid_string : String → NullString
valid_string s = record { valid = true; string = s }

-- How the end of a download is to show in its row.
abbrev pub final_state : Download → State
final_state (finished (ok file)) = record {
  status = "success";
  file = valid_string file;
  error = no_string;
}
final_state (finished (err e)) = record {
  status = "failure";
  file = no_string;
  error = valid_string (error_text e);
}
final_state (crashed text) = record {
  status = "failure";
  file = no_string;
  error = valid_string text;
}

locked_row_state :
    (now : ℕ) (e : UrlEvent) (r : UrlRow)
    → r.url.id ≡ e.id
    → r.url.status ≡ "pending"
    → (locked_row now (processing e) r).url.status ≡ "processing"
locked_row_state now e r h k = rw (h, k) (ground (arith, ==_refl e.id))

unlocked_row_state :
    (now : ℕ) (e : UrlEvent) (d : Download) (r : UrlRow)
    → r.url.id ≡ e.id
    → r.url.status ≡ "processing"
    → state_of (unlocked_row now (settle d (processing e)) r) ≡ final_state d
unfolding settle
unlocked_row_state now e (finished (ok file)) r h k = rw (h, k) (ground (arith, ==_refl e.id))
unlocked_row_state now e (finished (err x)) r h k = rw (h, k) (ground (arith, ==_refl e.id))
unlocked_row_state now e (crashed text) r h k = rw (h, k) (ground (arith, ==_refl e.id))

find_row_id : (id : ℕ) (rows : List UrlRow) (r : UrlRow) → find_row id rows ≡ some r → r.url.id ≡ id
find_row_id id [] r h = cc
find_row_id id (s ∷ rows) r h = ground (arith, find_row_id id rows r)

module _ (db : Querier) (pg : Postgres db) (download : Downloader db) (oembed : OEmbed) where
  -- The status of the row with an id.
  abbrev pub status_at : ℕ → db.Conn → Option String
  status_at id c = Option.map (λ r. r.url.status) (row_at db pg id c)

  -- A download changes the status of no row.
  abbrev pub KeepsStatus : Type 0
  KeepsStatus =
      (ctx : Context) (u : Url) (c : db.Conn) (id : ℕ)
      → status_at id (download ctx u c).2 ≡ status_at id c

  -- An UPDATE on a live context succeeds.
  abbrev pub Unlocks : Type 0
  Unlocks = (u : Url) (c : db.Conn) → (unlock_url db live u c).0 ≡ ok tt

  row_of_status :
      (id : ℕ) (c : db.Conn) (s : String)
      → status_at id c ≡ some s
      → (r : UrlRow) × (row_at db pg id c ≡ some r) × (r.url.id ≡ id) × (r.url.status ≡ s)
  row_of_status id c s h = elim (Option-cases (row_at db pg id c)) [
    | inl e ↦ absurd (none-ne-some s (rw e at h))
    | inr (r, e) ↦ (r, e, find_row_id id _ r e, some-injective _ _ (rw e at h))
  ]

  unlock_state :
      (e : UrlEvent) (d : Download) (c : db.Conn)
      → Unlocks
      → status_at e.id c ≡ some "processing"
      → Option.map state_of (row_at db pg e.id (unlock_url db live (settle d (processing e)) c).1)
        ≡ some (final_state d)
  unlock_state e d c unlocks h =
      let (r, at, same, status) = row_of_status e.id c "processing" h in
      rw (row_at-unlock_url db pg live (settle d (processing e)) e.id c (unlocks _ c))
        (rw at (ap some (unlocked_row_state (pg.clock c) e d r same status)))

  lock_status :
      (ctx : Context) (e : UrlEvent) (c : db.Conn)
      → (lock_url db ctx (processing e) c).0 ≡ ok tt
      → status_at e.id c ≡ some "pending"
      → status_at e.id (lock_url db ctx (processing e) c).1 ≡ some "processing"
  lock_status ctx e c locks h =
      let (r, at, same, status) = row_of_status e.id c "pending" h in
      rw (row_at-lock_url db pg ctx (processing e) e.id c locks)
        (rw at (ap some (locked_row_state (pg.clock c) e r same status)))

  unlock_context_live : (ctx : Context) → unlock_context ctx ≡ live
  unfolding unlock_context
  unlock_context_live live = refl
  unlock_context_live (done e) = refl

  locked_ok :
      (ctx : Context) (u : Url) (x : Result (Unit {0}) × db.Conn)
      → x.0 ≡ ok tt
      → locked db download oembed ctx u x ≡ download_locked db download oembed ctx u x.1
  locked_ok ctx u (ok tt, c) h = refl
  locked_ok ctx u (err e, c) h = cc

  download_url-locked :
      (ctx : Context) (e : UrlEvent) (c : db.Conn)
      → (lock_url db ctx (processing e) c).0 ≡ ok tt
      → download_url db download oembed ctx e c
        ≡ download_locked db download oembed ctx (processing e) (lock_url db ctx (processing e) c).1
  unfolding download_url
  download_url-locked ctx e c h = locked_ok ctx (processing e) (lock_url db ctx (processing e) c) h

  download_locked_lem :
      (ctx : Context) (u : Url) (c : db.Conn)
      → let (d, ctx', c') = download ctx u c in
        download_locked db download oembed ctx u c
        ≡ (outcome d, (unlock_url db (unlock_context ctx') (settle d u) c').1)
  unfolding download_locked
  download_locked_lem ctx u c = refl

  -- Where the row of an event is pending, the lock succeeds and an UPDATE on a live context succeeds,
  -- DownloadURL returns what the download returns, or panics as it does, and the row has the status
  -- "success" with the file, or "failure" with the text of the error or of the panic, whatever state
  -- the context is in when the download ends. The download is one that changes no row's status.
  pub download_url_settles :
      KeepsStatus
      → Unlocks
      → (ctx : Context) (e : UrlEvent) (c : db.Conn) → status_at e.id c ≡ some "pending"
      → (lock_url db ctx (processing e) c).0 ≡ ok tt
      → let d = (download ctx (processing e) (lock_url db ctx (processing e) c).1).0 in
        let (out, c') = download_url db download oembed ctx e c in
        (out ≡ outcome d) × (Option.map state_of (row_at db pg e.id c') ≡ some (final_state d))
  download_url_settles keeps unlocks ctx e c pending locks =
      let (d, ctx', c') = download ctx (processing e) (lock_url db ctx (processing e) c).1 in
      let done_lock = lock_status ctx e c locks pending in
      rw (download_url-locked ctx e c locks) (
        rw download_locked_lem (
          refl,
          rw (unlock_context_live ctx')
              (unlock_state e d c' unlocks (keeps ctx (processing e) _ e.id ∙ done_lock)),
        ))
