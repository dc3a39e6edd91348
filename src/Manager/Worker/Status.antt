-- ===== src/Manager/Worker/Status.antt =====
-- The life of a row under the statements of the program, in any order and with any arguments that the
-- program gives them: what its status says of its file and its error.
use mathlib.Core.Path.{fun_ext}
use youtube_ar.Base.{
  ℕ, String, List, [], ◌∷◌, ◌++◌, map, true, ok, err, ◌≡◌, refl, ◌⊎◌, inl, arith, eq_iff, All,
  All-append, ap, ◌∙◌, some,
}
use youtube_ar.Model.{Url, Log, no_string}
use youtube_ar.Event.{UrlEvent}
use youtube_ar.Sql.{Expr, null_bytes, equal, ident, bind, int, call_two, text, time}
use youtube_ar.Sql.Meaning.{UrlRow, Tables, TextSearch, updated, update_row}
use youtube_ar.Store.{
  create_url_statement, lock_url_statement, unlock_url_statement, set_oembed_statement,
  append_log_statement, delete_url_statement,
}
use youtube_ar.Store.Rows.{find_row, find_row-map, locked_row, unlocked_row, unlocked_row_lem}
use youtube_ar.Manager.Worker.Settles.{State, state_of}
use youtube_ar.Manager.Worker.{Download, finished, crashed, settle, processing}

-- One statement of the program on the tables.
pub data Step (ts : TextSearch) (t : Tables) (t' : Tables) : Type 0 where
  create : (now : ℕ) (u : Url) → t' ≡ updated ts now (create_url_statement u) t → Step ts t t'
  lock :
      (now : ℕ) (e : UrlEvent)
      → t' ≡ updated ts now (lock_url_statement (processing e)) t
      → Step ts t t'
  unlock :
      (now : ℕ) (e : UrlEvent) (d : Download)
      → t' ≡ updated ts now (unlock_url_statement (settle d (processing e))) t
      → Step ts t t'
  set_oembed : (now : ℕ) (u : Url) → t' ≡ updated ts now (set_oembed_statement u) t → Step ts t t'
  append_log :
      (now id : ℕ) (l : Log) → t' ≡ updated ts now (append_log_statement id l) t → Step ts t t'
  delete : (now at id : ℕ) → t' ≡ updated ts now (delete_url_statement at id) t → Step ts t t'

pub data Reach (ts : TextSearch) (t : Tables) : Tables → Type 0 where
  here : Reach ts t t
  next : {u v : Tables} → Reach ts t u → Step ts u v → Reach ts t v

-- A row that waits or is being downloaded has neither file nor error, one that succeeded has a file
-- only, one that failed has an error only.
abbrev pub IsConsistent : UrlRow → Type 0
IsConsistent r =
    (((r.url.status ≡ "pending") ⊎ (r.url.status ≡ "processing"))
      × (r.url.file ≡ no_string)
      × (r.url.error ≡ no_string))
    ⊎ ((r.url.status ≡ "success") × (r.url.file.valid ≡ true) × (r.url.error ≡ no_string))
    ⊎ ((r.url.status ≡ "failure") × (r.url.file ≡ no_string) × (r.url.error.valid ≡ true))

All-map :
    {P : UrlRow → Type 0} (f : UrlRow → UrlRow) (rows : List UrlRow)
    → ((r : UrlRow) → P r → P (f r))
    → All P rows
    → All P (map f rows)
All-map f [] h a = tt
All-map f (r ∷ rows) h (p, a) = (h r p, All-map f rows h a)

locked_row-IsConsistent :
    (now : ℕ) (e : UrlEvent) (r : UrlRow)
    → IsConsistent r
    → IsConsistent (locked_row now (processing e) r)
locked_row-IsConsistent now e r h =
    ground
      (arith, eq_iff r.url.status "pending", eq_iff "success" "pending", eq_iff "failure" "pending")

unlocked_row-IsConsistent :
    (now : ℕ) (e : UrlEvent) (d : Download) (r : UrlRow)
    → IsConsistent r
    → IsConsistent (unlocked_row now (settle d (processing e)) r)
unfolding settle
unlocked_row-IsConsistent now e (finished (ok file)) r h = ground arith
unlocked_row-IsConsistent now e (finished (err x)) r h = ground arith
unlocked_row-IsConsistent now e (crashed message) r h = ground arith

-- The updates of the other columns.
abbrev id_condition : ℕ → Expr
id_condition id = equal (ident "id") (bind (int id))

abbrev oembed_values : Url → List (String × Expr)
oembed_values u = ("oembed", bind (null_bytes u.oembed)) ∷ []

abbrev log_values : Log → List (String × Expr)
log_values l = ("logs", call_two "array_append" (ident "logs") (bind (text l.log))) ∷ []

abbrev delete_values : ℕ → List (String × Expr)
delete_values at = ("deleted_at", bind (time at)) ∷ []

oembed_row-IsConsistent :
    (ts : TextSearch) (now : ℕ) (u : Url) (r : UrlRow)
    → IsConsistent r
    → IsConsistent (update_row ts now (oembed_values u) (id_condition u.id) r)
oembed_row-IsConsistent ts now u r h = ground arith

log_row-IsConsistent :
    (ts : TextSearch) (now id : ℕ) (l : Log) (r : UrlRow)
    → IsConsistent r
    → IsConsistent (update_row ts now (log_values l) (id_condition id) r)
log_row-IsConsistent ts now id l r h = ground arith

delete_row-IsConsistent :
    (ts : TextSearch) (now at id : ℕ) (r : UrlRow)
    → IsConsistent r
    → IsConsistent (update_row ts now (delete_values at) (id_condition id) r)
delete_row-IsConsistent ts now at id r h = ground arith

Step-IsConsistent :
    (ts : TextSearch) (t t' : Tables)
    → Step ts t t'
    → All IsConsistent t.urls
    → All IsConsistent t'.urls
Step-IsConsistent ts t t' (create now u e) h =
    rw e (All-append IsConsistent t.urls _ h (inl (inl refl, refl, refl), tt))
Step-IsConsistent ts t t' (lock now e e') h =
    rw e' (All-map (locked_row now (processing e)) t.urls (locked_row-IsConsistent now e) h)
Step-IsConsistent ts t t' (unlock now e d e') h = rw e' (
    rw (fun_ext (unlocked_row_lem ts now (settle d (processing e)))) (
      All-map (unlocked_row now (settle d (processing e))) t.urls
        (unlocked_row-IsConsistent now e d) h))
Step-IsConsistent ts t t' (set_oembed now u e) h =
    rw e (All-map _ t.urls (oembed_row-IsConsistent ts now u) h)
Step-IsConsistent ts t t' (append_log now id l e) h =
    rw e (All-map _ t.urls (log_row-IsConsistent ts now id l) h)
Step-IsConsistent ts t t' (delete now at id e) h =
    rw e (All-map _ t.urls (delete_row-IsConsistent ts now at id) h)

-- A row that has been settled.
abbrev pub IsSettled : UrlRow → Type 0
IsSettled r = (r.url.status ≡ "success") ⊎ (r.url.status ≡ "failure")

locked_row-settled : (now : ℕ) (u : Url) (r : UrlRow) → IsSettled r → locked_row now u r ≡ r
locked_row-settled now u r h =
    ground
      (arith, eq_iff r.url.status "pending", eq_iff "success" "pending", eq_iff "failure" "pending")

unlocked_row-settled : (now : ℕ) (u : Url) (r : UrlRow) → IsSettled r → unlocked_row now u r ≡ r
unlocked_row-settled now u r h = ground (
  arith,
  eq_iff r.url.status "processing",
  eq_iff "success" "processing",
  eq_iff "failure" "processing",
)

oembed_row-settled :
    (ts : TextSearch) (now : ℕ) (u : Url) (r : UrlRow)
    → state_of (update_row ts now (oembed_values u) (id_condition u.id) r) ≡ state_of r
oembed_row-settled ts now u r = ground arith

log_row-settled :
    (ts : TextSearch) (now id : ℕ) (l : Log) (r : UrlRow)
    → state_of (update_row ts now (log_values l) (id_condition id) r) ≡ state_of r
log_row-settled ts now id l r = ground arith

delete_row-settled :
    (ts : TextSearch) (now at id : ℕ) (r : UrlRow)
    → state_of (update_row ts now (delete_values at) (id_condition id) r) ≡ state_of r
delete_row-settled ts now at id r = ground arith

-- The state of the row with an id is that of a settled row.
abbrev pub Holds : ℕ → State → Tables → Type 0
Holds id s t = (r : UrlRow) × (find_row id t.urls ≡ some r) × (state_of r ≡ s)

find_row-append :
    (id : ℕ) (rows more : List UrlRow) (r : UrlRow)
    → find_row id rows ≡ some r
    → find_row id (rows ++ more) ≡ some r
find_row-append id [] more r h = cc
find_row-append id (x ∷ rows) more r h = ground (arith, find_row-append id rows more r)

Holds-map :
    (f : UrlRow → UrlRow) (id : ℕ) (s : State) (t : Tables)
    → ((r : UrlRow) → (f r).url.id ≡ r.url.id)
    → ((r : UrlRow) → state_of r ≡ s → state_of (f r) ≡ s)
    → Holds id s t
    → Holds id s (record t { urls = map f t.urls })
Holds-map f id s t same keeps (r, at, e) = (f r, find_row-map f id t.urls same ∙ rw at, keeps r e)

-- From tables whose rows are consistent, every sequence of the program's statements leads to tables
-- whose rows are: no row succeeds without a file, fails without an error, or has either before.
pub Reach-IsConsistent :
    (ts : TextSearch) {t t' : Tables}
    → All IsConsistent t.urls
    → Reach ts t t'
    → All IsConsistent t'.urls
Reach-IsConsistent ts h here = h
Reach-IsConsistent ts h (next path step) =
    Step-IsConsistent ts _ _ step (Reach-IsConsistent ts h path)

module _ (ts : TextSearch) (id : ℕ) (s : State)
    (final : (s.status ≡ "success") ⊎ (s.status ≡ "failure")) where
  IsSettled-of : (r : UrlRow) → state_of r ≡ s → IsSettled r
  IsSettled-of r e = let k : r.url.status ≡ s.status = ap (λ x. x.status) e in rw k final

  Step-Holds : (t t' : Tables) → Step ts t t' → Holds id s t → Holds id s t'
  Step-Holds t t' (create now u e) (r, at, same) = rw e (r, find_row-append id t.urls _ r at, same)
  Step-Holds t t' (lock now e e') h = rw e' (
      Holds-map (locked_row now (processing e)) id s t (λ r. ground arith)
        (λ r k. ap state_of (locked_row-settled now (processing e) r (IsSettled-of r k)) ∙ k) h)
  Step-Holds t t' (unlock now e d e') h = rw e' (
      rw (fun_ext (unlocked_row_lem ts now (settle d (processing e)))) (
        Holds-map (unlocked_row now (settle d (processing e))) id s t (λ r. ground arith)
          (λ r k.
            ap state_of (unlocked_row-settled now (settle d (processing e)) r (IsSettled-of r k))
            ∙ k)
          h))
  Step-Holds t t' (set_oembed now u e) h =
      rw e (Holds-map _ id s t (λ r. ground arith) (λ r k. oembed_row-settled ts now u r ∙ k) h)
  Step-Holds t t' (append_log now i l e) h =
      rw e (Holds-map _ id s t (λ r. ground arith) (λ r k. log_row-settled ts now i l r ∙ k) h)
  Step-Holds t t' (delete now at i e) h =
      rw e (Holds-map _ id s t (λ r. ground arith) (λ r k. delete_row-settled ts now at i r ∙ k) h)

  -- Once a row has the status "success" or "failure", its status, file and error stay, whatever
  -- statements of the program follow.
  pub Reach-Holds : {t t' : Tables} → Holds id s t → Reach ts t t' → Holds id s t'
  Reach-Holds h here = h
  Reach-Holds h (next path step) = Step-Holds _ _ step (Reach-Holds h path)
