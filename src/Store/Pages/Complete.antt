-- ===== src/Store/Pages/Complete.antt =====
-- Following the cursors lists every url once.
use mathlib.Core.List.{append_assoc}
use mathlib.Core.Option.{some-injective}
use youtube_ar.Base.{
  take-drop, length-drop_le, map-append, and_then-err, and_then-ok, ℕ, zero, suc, ◌-◌, ◌≤◌, ◌<◌,
  String, List, [], ◌∷◌, ◌++◌, map, Option, some, Result, ok, err, GoError, Context, ◌==◌, ◌≡◌,
  refl, sym, ap, ◌∙◌, arith, filter, take, drop, length, get_last?, Result-cases, and_then, pure,
  ◌⊎◌, inl, inr, false,
}
use youtube_ar.Model.{Url}
use youtube_ar.Sql.{Querier}
use youtube_ar.Sql.Meaning.{UrlRow, Tables, row_url, returned_urls}
use youtube_ar.Sql.Postgres.{Postgres}
use youtube_ar.Resource.{next_cursor}
use youtube_ar.Store.{list_urls, build_list_urls}
use youtube_ar.Store.Ids.{AreNumbered}
use youtube_ar.Store.Pages.{page_query, is_listed, listing, with_more, follow}
use youtube_ar.Store.Pages.Order.{
  is_below, Descending, From, From-reverse, Ascending-From, reverse-Descending, filter-after,
  last-lt,
}
use youtube_ar.Store.Pages.Query.{two_63, after_cursor, returned-listing}

last-exists : (r : UrlRow) (l : List UrlRow) → (x : UrlRow) × (get_last? (r ∷ l) ≡ some x)
last-exists r [] = (r, refl)
last-exists r (s ∷ l) = last-exists s l

get_last?-append :
    (l : List UrlRow) (r : UrlRow) (m : List UrlRow) → get_last? (l ++ r ∷ m) ≡ get_last? (r ∷ m)
get_last?-append [] r m = refl
get_last?-append (x ∷ []) r m = refl
get_last?-append (x ∷ y ∷ l) r m = get_last?-append (y ∷ l) r m

next_cursor-map :
    (r : UrlRow) (l : List UrlRow) (x : UrlRow)
    → get_last? (r ∷ l) ≡ some x
    → next_cursor (map row_url (r ∷ l)) ≡ x.url.id
next_cursor-map r [] x e = ap (λ (y : UrlRow). y.url.id) (some-injective _ _ e)
next_cursor-map r (s ∷ l) x e = next_cursor-map s l x e

From-last :
    (lo : ℕ) (l m : List UrlRow) (x : UrlRow)
    → get_last? l ≡ some x
    → From lo (l ++ m)
    → lo ≤ x.url.id
From-last lo [] m x e h = absurd (ground arith)
From-last lo (r ∷ []) m x e (p, h) = rw (some-injective _ _ e) at p
From-last lo (r ∷ s ∷ l) m x e (p, h) = From-last lo (s ∷ l) m x e h

take-nil : (n : ℕ) → take {A = UrlRow} n [] ≡ []
take-nil zero = refl
take-nil (suc n) = refl

-- Some query for a page gets an error.
abbrev pub Refused : (db : Querier) → Context → ℕ → Option (List String) → GoError → Type 0
Refused db ctx limit status e =
    (cursor : ℕ) × (c : db.Conn) × ((list_urls db ctx (page_query limit status cursor) c).0 ≡ err e)

module _ (db : Querier) (pg : Postgres db) (ctx : Context) (limit : ℕ)
    (status : Option (List String)) (t : Tables) (numbered : AreNumbered t)
    (small : t.next_id ≤ two_63) where
  -- What a client has after following the cursors: the urls, or the error of a query.
  abbrev pub Listed : List UrlRow → Result (List Url) → Type 0
  Listed rows result =
      (result ≡ ok (map row_url rows))
      ⊎ ((e : GoError) × Refused db ctx limit status e × (result ≡ err e))

  abbrev all : List UrlRow
  all = listing status t.urls

  all-Descending : Descending t.next_id all
  all-Descending = reverse-Descending 1 t.urls t.next_id (is_listed status) numbered

  all-From : From 1 all
  all-From =
      From-reverse 1 (filter (is_listed status) t.urls)
        (Ascending-From 1 t.urls t.next_id (is_listed status) numbered)

  -- After a page the cursor is its last id, and what follows it is what follows the page.
  after_page :
      (read : List UrlRow) (r : UrlRow) (page more : List UrlRow)
      → all ≡ read ++ ((r ∷ page) ++ more)
      → let cursor = next_cursor (map row_url (r ∷ page)) in
        (cursor < two_63) × (after_cursor cursor all ≡ more)
  after_page read r page more e =
      let (x, last) = last-exists r page in
      let split : all ≡ (read ++ (r ∷ page)) ++ more =
        e
        ∙ (let assoc : (read ++ (r ∷ page)) ++ more ≡ read ++ ((r ∷ page) ++ more) =
              append_assoc read (r ∷ page) more in
            sym assoc) in
      let last' : get_last? (read ++ r ∷ page) ≡ some x = get_last?-append read r page ∙ last in
      let falls : Descending t.next_id ((read ++ r ∷ page) ++ more) = rw split at all-Descending in
      let positive = From-last 1 (read ++ r ∷ page) more x last' (rw split at all-From) in
      let below = last-lt t.next_id (read ++ r ∷ page) more x last' falls in
      let nonzero : (x.url.id == 0) ≡ false = ground arith in
      rw (next_cursor-map r page x last) (
        omega (arith, below, small),
        rw nonzero (
            ap (filter (is_below x.url.id)) split
            ∙ filter-after t.next_id (read ++ r ∷ page) more x last' falls),
      )

  -- A page, and what comes after it.
  abbrev joined : List Url → Result (List Url) × db.Conn → Result (List Url) × db.Conn
  joined page more = and_then more (λ rest. pure (page ++ rest))

  joined-Listed :
      (page more : List UrlRow) (result : Result (List Url) × db.Conn)
      → Listed more result.0
      → Listed (page ++ more) (joined (map row_url page) result).0
  joined-Listed page more (ok rest, c) (inl e) = inl (ground (arith, map-append row_url page more))
  joined-Listed page more (err x, c) (inl e) = cc
  joined-Listed page more (ok rest, c) (inr (x, _, e)) = cc
  joined-Listed page more (err y, c) (inr (x, refused, e)) = inr (x, refused, e)

  -- A page is empty only where nothing follows.
  abbrev Split : List UrlRow → Type 0
  Split rest =
      ((rest ≡ []) × (take limit rest ≡ []))
      ⊎ ((r : UrlRow) × (page : List UrlRow) × (more : List UrlRow) × (take limit rest ≡ r ∷ page)
          × (rest ≡ (r ∷ page) ++ more)
          × (length more < length rest))

  page-cases : 0 < limit → (rest : List UrlRow) → Split rest
  page-cases h [] = inl (refl, take-nil limit)
  page-cases h (r ∷ rest) =
      let e : limit ≡ suc (limit - 1) = omega (arith, h) in
      inr (
        r,
        take (limit - 1) rest,
        drop (limit - 1) rest,
        ap (λ n. take n (r ∷ rest)) e,
        ap (λ k. r ∷ k) (sym (take-drop (limit - 1) rest)),
        omega (arith, length-drop_le (limit - 1) rest),
      )

  module _ (positive : 0 < limit) where
    follow-Listed :
        (rounds cursor : ℕ) (read rest : List UrlRow) (c : db.Conn)
        → pg.tables c ≡ t
        → cursor < two_63
        → all ≡ read ++ rest
        → after_cursor cursor all ≡ rest
        → length rest < rounds
        → Listed rest (follow db ctx limit status rounds cursor c).0
    unfolding follow list_urls
    follow-Listed zero cursor read rest c at h split from enough = absurd (omega (arith, enough))
    follow-Listed (suc rounds) cursor read rest c at h split from enough =
        let st = build_list_urls (page_query limit status cursor) in
        let answer = db.query_urls ctx st c in
        elim (Result-cases answer.0) [
          | inr (e, k) ↦ inr (e, (cursor, c, k), ap (λ x. x.0) (and_then-err answer e _ k))
          | inl (us, k) ↦
              let page : us ≡ map row_url (take limit rest) =
                pg.query_urls_ok ctx st c us k
                ∙ ap (returned_urls pg.search (pg.clock c) st) at
                ∙ returned-listing pg.search (pg.clock c) limit status cursor t numbered small h
                ∙ ap (λ l. map row_url (take limit l)) from in
              let after : pg.tables answer.1 ≡ t =
                pg.query_urls_reads ctx st c ∙ (unfold build_list_urls in at) in
              let runs = ap (λ x. x.0) (and_then-ok answer us _ k) in
              elim (page-cases positive rest) [
                | inl (empty, nothing) ↦ inl (
                    runs
                    ∙ ap
                        (λ l.
                          (with_more db ctx limit status l
                            (follow db ctx limit status rounds (next_cursor l)) answer.1).0)
                        (page ∙ ap (map row_url) nothing)
                    ∙ ap (λ l. ok (map row_url l)) (sym empty))
                | inr (r, page', more, taken, whole, less) ↦
                    let now = page ∙ ap (map row_url) taken in
                    let here = split ∙ ap (λ l. read ++ l) whole in
                    let (low, next) = after_page read r page' more here in
                    let cursor' = next_cursor (map row_url (r ∷ page')) in
                    let rest' =
                      follow-Listed rounds cursor' (read ++ (r ∷ page')) more answer.1 after low
                        (here ∙ sym (append_assoc read (r ∷ page') more)) next
                        (omega (arith, enough, less)) in
                    let step =
                      runs
                      ∙ ap
                          (λ l.
                            (with_more db ctx limit status l
                              (follow db ctx limit status rounds (next_cursor l)) answer.1).0)
                          now in
                    rw (step, whole)
                      (joined-Listed (r ∷ page') more
                        (follow db ctx limit status rounds cursor' answer.1) rest')
              ]
        ]

-- Where a client asks for pages of a positive limit, each with the cursor of the page before, until one
-- is empty, it gets every url that is not deleted and has a status asked for, once, the latest first, or
-- the error of a query: as many rounds as there are such urls, and one more, are enough. The ids are
-- numbered and below 2 ^ 63, there is no search, and nothing is written in between.
pub follow_complete :
    (db : Querier) (pg : Postgres db) (ctx : Context) (limit : ℕ) (status : Option (List String))
    (rounds : ℕ) (c : db.Conn)
    → AreNumbered (pg.tables c)
    → (pg.tables c).next_id ≤ two_63
    → 0 < limit
    → length (listing status (pg.tables c).urls) < rounds
    → let result = (follow db ctx limit status rounds 0 c).0 in
      (result ≡ ok (map row_url (listing status (pg.tables c).urls)))
      ⊎ ((e : GoError) × Refused db ctx limit status e × (result ≡ err e))
follow_complete db pg ctx limit status rounds c numbered small positive enough =
    follow-Listed db pg ctx limit status (pg.tables c) numbered small positive rounds 0 []
      (listing status (pg.tables c).urls) c refl (omega arith) refl refl enough
