-- ===== src/Store/Ids.antt =====
-- The ids of the rows: each is new when it is given, and rows keep theirs.
use youtube_ar.Base.{ℕ, ◌+◌, ◌≤◌, List, [], ◌∷◌, ◌++◌, map, ◌≡◌, refl, arith}
use youtube_ar.Sql.Meaning.{UrlRow, Tables, TextSearch}
use youtube_ar.Manager.Worker.Status.{
  Step, create, lock, unlock, set_oembed, append_log, delete, Reach, here, next,
}

-- The ids of the rows grow from `lo` on and stay below `hi`.
abbrev pub Ascending : ℕ → List UrlRow → ℕ → Type 0
Ascending lo [] hi = lo ≤ hi
Ascending lo (r ∷ rows) hi = (lo ≤ r.url.id) × Ascending (r.url.id + 1) rows hi

-- The sequence that numbers the rows begins at 1 and is ahead of every row.
abbrev pub AreNumbered : Tables → Type 0
AreNumbered t = Ascending 1 t.urls t.next_id

pub Ascending-le : (lo : ℕ) (rows : List UrlRow) (hi : ℕ) → Ascending lo rows hi → lo ≤ hi
Ascending-le lo [] hi h = h
Ascending-le lo (r ∷ rows) hi (p, h) = omega (arith, p, Ascending-le (r.url.id + 1) rows hi h)

Ascending-append :
    (lo : ℕ) (rows : List UrlRow) (hi : ℕ) (r : UrlRow)
    → r.url.id ≡ hi
    → Ascending lo rows hi
    → Ascending lo (rows ++ r ∷ []) (hi + 1)
Ascending-append lo [] hi r e h = omega (arith, e, h)
Ascending-append lo (x ∷ rows) hi r e (p, h) = (p, Ascending-append (x.url.id + 1) rows hi r e h)

Ascending-map :
    (f : UrlRow → UrlRow) (lo : ℕ) (rows : List UrlRow) (hi : ℕ)
    → ((r : UrlRow) → (f r).url.id ≡ r.url.id)
    → Ascending lo rows hi
    → Ascending lo (map f rows) hi
Ascending-map f lo [] hi same h = h
Ascending-map f lo (x ∷ rows) hi same (p, h) =
    rw (same x) (p, Ascending-map f (x.url.id + 1) rows hi same h)

Step-AreNumbered : (ts : TextSearch) (t t' : Tables) → Step ts t t' → AreNumbered t → AreNumbered t'
Step-AreNumbered ts t t' (create now u e) h = rw e (Ascending-append 1 t.urls t.next_id _ refl h)
Step-AreNumbered ts t t' (lock now u e) h = rw e (Ascending-map _ 1 t.urls _ (λ r. ground arith) h)
Step-AreNumbered ts t t' (unlock now u d e) h =
    rw e (Ascending-map _ 1 t.urls _ (λ r. ground arith) h)
Step-AreNumbered ts t t' (set_oembed now u e) h =
    rw e (Ascending-map _ 1 t.urls _ (λ r. ground arith) h)
Step-AreNumbered ts t t' (append_log now id l e) h =
    rw e (Ascending-map _ 1 t.urls _ (λ r. ground arith) h)
Step-AreNumbered ts t t' (delete now at id e) h =
    rw e (Ascending-map _ 1 t.urls _ (λ r. ground arith) h)

-- Under every sequence of the store's statements the ids stay numbered: they grow in the order of
-- insertion, so no two rows share one, and lie between 1 and the next id, which no row has.
pub Reach-AreNumbered :
    (ts : TextSearch) {t t' : Tables} → AreNumbered t → Reach ts t t' → AreNumbered t'
Reach-AreNumbered ts h here = h
Reach-AreNumbered ts h (next path step) = Step-AreNumbered ts _ _ step (Reach-AreNumbered ts h path)
