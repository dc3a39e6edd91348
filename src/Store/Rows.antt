-- ===== src/Store/Rows.antt =====
-- What the updates of api/store do to the row with a given id.
use mathlib.Core.Option
use mathlib.Core.Path.{fun_ext}
use youtube_ar.Base.{
  ℕ, String, List, [], ◌∷◌, Option, none, some, ◌&&◌, str_eq, ◌==◌, if◌then◌else◌, map, ◌≡◌, refl,
  ap, arith, ok, Context, ◌∙◌,
}
use youtube_ar.Model.{Url}
use youtube_ar.Sql.{Querier, Expr, null_string, bind, text, int, and_also, equal, ident, literal}
use youtube_ar.Sql.Meaning.{UrlRow, TextSearch, update_row, to_string}
use youtube_ar.Sql.Postgres.{Postgres}
use youtube_ar.Store.{lock_url, unlock_url, lock_url_statement, unlock_url_statement}

-- The row with an id.
abbrev pub find_row : ℕ → List UrlRow → Option UrlRow
find_row id [] = none
find_row id (r ∷ rows) = if r.url.id == id then some r else find_row id rows

pub find_row-map :
    (f : UrlRow → UrlRow) (id : ℕ) (rows : List UrlRow)
    → ((r : UrlRow) → (f r).url.id ≡ r.url.id)
    → find_row id (map f rows) ≡ Option.map f (find_row id rows)
find_row-map f id [] h = refl
find_row-map f id (r ∷ rows) h = ground (arith, find_row-map f id rows h, h r)

-- What LockURL and UnlockURL do to a row.
abbrev pub locked_row : ℕ → Url → UrlRow → UrlRow
locked_row now u r =
    if r.url.id == u.id && str_eq r.url.status "pending"
    then record r { url = record (r.url) { status = u.status; updated_at = now } }
    else r

abbrev pub unlocked_row : ℕ → Url → UrlRow → UrlRow
unlocked_row now u r =
    if r.url.id == u.id && str_eq r.url.status "processing"
    then record r {
      url = record (r.url) {
        status = u.status;
        file = to_string (null_string u.file);
        error = to_string (null_string u.error);
        updated_at = now;
      };
    }
    else r

abbrev pub unlock_values : Url → List (String × Expr)
unlock_values u =
    ("status", bind (text u.status))
    ∷ ("file", bind (null_string u.file))
    ∷ ("error", bind (null_string u.error))
    ∷ []

abbrev pub unlock_condition : Url → Expr
unlock_condition u =
    and_also (equal (ident "id") (bind (int u.id))) (equal (ident "status") (literal "processing"))

pub unlocked_row_lem :
    (ts : TextSearch) (now : ℕ) (u : Url) (r : UrlRow)
    → update_row ts now (unlock_values u) (unlock_condition u) r ≡ unlocked_row now u r
unlocked_row_lem ts now u r = ground arith

module _ (db : Querier) (pg : Postgres db) where
  -- The row with an id, as the connection sees it.
  abbrev pub row_at : ℕ → db.Conn → Option UrlRow
  row_at id c = find_row id (pg.tables c).urls

  pub row_at-lock_url :
      (ctx : Context) (u : Url) (id : ℕ) (c : db.Conn)
      → (lock_url db ctx u c).0 ≡ ok tt
      → row_at id (lock_url db ctx u c).1 ≡ Option.map (locked_row (pg.clock c) u) (row_at id c)
  unfolding lock_url
  row_at-lock_url ctx u id c h =
      ap (λ t. find_row id t.urls) (pg.exec_ok ctx (lock_url_statement u) c h)
      ∙ find_row-map (locked_row (pg.clock c) u) id (pg.tables c).urls (λ r. ground arith)

  pub row_at-unlock_url :
      (ctx : Context) (u : Url) (id : ℕ) (c : db.Conn)
      → (unlock_url db ctx u c).0 ≡ ok tt
      → row_at id (unlock_url db ctx u c).1 ≡ Option.map (unlocked_row (pg.clock c) u) (row_at id c)
  unfolding unlock_url
  row_at-unlock_url ctx u id c h =
      ap (λ t. find_row id t.urls) (pg.exec_ok ctx (unlock_url_statement u) c h)
      ∙ ap (λ f. find_row id (map f (pg.tables c).urls))
          (fun_ext (unlocked_row_lem pg.search (pg.clock c) u))
      ∙ find_row-map (unlocked_row (pg.clock c) u) id (pg.tables c).urls (λ r. ground arith)
