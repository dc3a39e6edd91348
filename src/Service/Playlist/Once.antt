-- ===== src/Service/Playlist/Once.antt =====
-- The rows of youtube_videos while playlists are loaded: no video has two.
use youtube_ar.Base.{
  ℕ, map, ◌≤◌, String, List, [], ◌∷◌, ◌++◌, Result, ok, err, redis_nil, no_rows, canceled,
  deadline_exceeded, failed, Result-cases, ◌≡◌, refl, sym, ap, ◌∙◌, inl, inr, arith, Context,
  str_eq, eq_iff, filter, filter-append, length, length-append, Bool-cases, true, and_then-ok,
  and_then-err,
}
use youtube_ar.Model.{YoutubeVideo}
use youtube_ar.Sql.{Querier}
use youtube_ar.Sql.Meaning.{Tables, returned_videos}
use youtube_ar.Sql.Postgres.{Postgres}
use youtube_ar.Store
use youtube_ar.Store.{get_youtube_video_statement}
use youtube_ar.Redis.{Redis}
use youtube_ar.Broker.{World}
use youtube_ar.Manager.Server.{on_store}
use youtube_ar.Service.Playlist.{
  create_in_transaction, found, get_or_create_youtube_video, create_all, create_urls_from_youtube,
}
use youtube_ar.Service.Playlist.Atomic.{AllOrNothing, create_in_transaction-AllOrNothing}

-- The rows with a video's id.
abbrev pub with_id : String → List YoutubeVideo → List YoutubeVideo
with_id id = filter (λ v. str_eq v.youtube_id id)

-- No video has two rows.
abbrev pub AreOnce : Tables → Type 0
AreOnce t = (id : String) → length (with_id id t.youtube_videos) ≤ 1

-- A row for a video that has none.
added-AreOnce :
    (videos : List YoutubeVideo) (v : YoutubeVideo) (id : String)
    → length (with_id id videos) ≤ 1
    → with_id v.youtube_id videos ≡ []
    → length (with_id id (videos ++ v ∷ [])) ≤ 1
added-AreOnce videos v id once none_yet =
    let split = ap (length {0}) (filter-append (λ x. str_eq x.youtube_id id) videos (v ∷ [])) in
    let sum = length-append (with_id id videos) (with_id id (v ∷ [])) in
    elim (Bool-cases (str_eq v.youtube_id id)) [
      | inl e ↦
          let one : length (with_id id (v ∷ [])) ≡ 1 = rw e refl in
          let zero_before : length (with_id id videos) ≡ 0 =
            ap (λ i. length (with_id i videos)) (sym (same v.youtube_id id e))
            ∙ ap (length {0}) none_yet in
          omega (arith, split, sum, one, zero_before)
      | inr e ↦
          let none_added : length (with_id id (v ∷ [])) ≡ 0 = rw e refl in
          omega (arith, split, sum, none_added, once)
    ]
  where
    same : (a b : String) → str_eq a b ≡ true → a ≡ b
    same a b h = ground (arith, eq_iff a b)

-- Whole rows are selected.
map_whole : (videos : List YoutubeVideo) → map (λ v. v) videos ≡ videos
map_whole [] = refl
map_whole (v ∷ videos) = ap (λ l. v ∷ l) (map_whole videos)

pub returned-with_id :
    (now : ℕ) (id : String) (t : Tables)
    → returned_videos now (get_youtube_video_statement id) t ≡ with_id id t.youtube_videos
returned-with_id now id t = map_whole (with_id id t.youtube_videos)

module _ (r : Redis) (db : Querier) (pg : Postgres db) (ctx : Context) where
  abbrev W : Type 0
  W = World r db.Conn

  -- The tables of a state, whatever the video.
  abbrev pub tables_in : W → Tables
  tables_in w = pg.tables w.rest

  created-AreOnce :
      (youtube_id : String) (w : W) (x : Result YoutubeVideo × W)
      → AllOrNothing r db pg ctx youtube_id w x
      → AreOnce (tables_in w)
      → with_id youtube_id (tables_in w).youtube_videos ≡ []
      → AreOnce (tables_in x.1)
  created-AreOnce youtube_id w (ok v, w') (inl (_, e)) once none_yet = rw e once
  created-AreOnce youtube_id w (ok v, w') (inr (now, now', e)) once none_yet =
      rw e λ id. added-AreOnce (tables_in w).youtube_videos _ id (once id) none_yet
  created-AreOnce youtube_id w (err x, w') e once none_yet = rw e once

  found-AreOnce :
      (youtube_id : String) (a : Result YoutubeVideo) (w : W)
      → AreOnce (tables_in w)
      → (a ≡ err no_rows → with_id youtube_id (tables_in w).youtube_videos ≡ [])
      → AreOnce (tables_in (found r db ctx youtube_id (a, w)).1)
  found-AreOnce youtube_id (ok v) w once h = once
  found-AreOnce youtube_id (err no_rows) w once h =
      created-AreOnce youtube_id w (create_in_transaction r db ctx youtube_id w)
        (create_in_transaction-AllOrNothing r db pg ctx youtube_id w) once (h refl)
  found-AreOnce youtube_id (err redis_nil) w once h = once
  found-AreOnce youtube_id (err canceled) w once h = once
  found-AreOnce youtube_id (err deadline_exceeded) w once h = once
  found-AreOnce youtube_id (err (failed text)) w once h = once

  -- Looking a video up changes no table.
  pub looked_up :
      (youtube_id : String) (w : W)
      → tables_in (on_store r db (Store.get_youtube_video_by_youtube_id db ctx youtube_id) w).1
        ≡ tables_in w
  unfolding Store.get_youtube_video_by_youtube_id
  looked_up youtube_id w =
      let st = get_youtube_video_statement youtube_id in
      elim (Result-cases (db.query_youtube_video ctx st w.rest).0) [
        | inl (v, h) ↦ (pg.query_video_ok ctx st w.rest v h).1
        | inr (e, h) ↦ pg.query_video_err ctx st w.rest e h
      ]

  get_or_create-AreOnce :
      (youtube_id : String) (w : W)
      → AreOnce (tables_in w)
      → AreOnce (tables_in (get_or_create_youtube_video r db ctx youtube_id w).1)
  unfolding get_or_create_youtube_video Store.get_youtube_video_by_youtube_id
  get_or_create-AreOnce youtube_id w once =
      let same = looked_up youtube_id w in
      let st = get_youtube_video_statement youtube_id in
      let w1 = (on_store r db (Store.get_youtube_video_by_youtube_id db ctx youtube_id) w).1 in
      let once' : AreOnce (tables_in w1) = rw same once in
      found-AreOnce youtube_id (db.query_youtube_video ctx st w.rest).0 w1 once' λ h.
        ap (λ (t : Tables). with_id youtube_id t.youtube_videos) same
        ∙ sym (returned-with_id (pg.clock w.rest) youtube_id (pg.tables w.rest))
        ∙ pg.query_video_no_rows ctx st w.rest h

  create_all-AreOnce :
      (videos : List String) (w : W)
      → AreOnce (tables_in w)
      → AreOnce (tables_in (create_all r db ctx videos w).1)
  unfolding create_all
  create_all-AreOnce [] w once = once
  create_all-AreOnce (youtube_id ∷ videos) w once =
      let x = get_or_create_youtube_video r db ctx youtube_id w in
      let once' = get_or_create-AreOnce youtube_id w once in
      elim (Result-cases x.0) [
        | inl (v, h) ↦
            rw (and_then-ok x v (λ _. create_all r db ctx videos) h)
              (create_all-AreOnce videos x.1 once')
        | inr (e, h) ↦ rw (and_then-err x e (λ _. create_all r db ctx videos) h) once'
      ]

  -- Where no video has two rows, none has two after a playlist is loaded: also if the playlist names a
  -- video twice, has been loaded before, or the loading ends with an error at any point, of a query, a
  -- commit or a rollback.
  pub create_urls-AreOnce :
      (videos : Result (List String)) (w : W)
      → AreOnce (tables_in w)
      → AreOnce (tables_in (create_urls_from_youtube r db ctx videos w).1)
  unfolding create_urls_from_youtube
  create_urls-AreOnce (err e) w once = once
  create_urls-AreOnce (ok videos) w once = create_all-AreOnce videos w once
