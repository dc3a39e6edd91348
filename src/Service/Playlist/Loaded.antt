-- ===== src/Service/Playlist/Loaded.antt =====
-- The videos that have a row after a playlist has been loaded.
use mathlib.Core.Path.{subst}
use youtube_ar.Base.{
  ◌+◌, ◌≤◌, String, List, [], ◌∷◌, ◌++◌, Result, ok, err, redis_nil, no_rows, canceled,
  deadline_exceeded, failed, Result-cases, ◌≡◌, refl, sym, ap, ◌∙◌, inl, inr, arith, Context,
  str_eq, str_eq_refl, some, filter-append, length, length-append, and_then-ok, and_then-err, All,
  err-ne-ok, head?,
}
use youtube_ar.Model.{YoutubeVideo}
use youtube_ar.Sql.{Querier}
use youtube_ar.Sql.Meaning.{Tables}
use youtube_ar.Sql.Postgres.{Postgres}
use youtube_ar.Store
use youtube_ar.Store.{get_youtube_video_statement}
use youtube_ar.Redis.{Redis}
use youtube_ar.Broker.{World}
use youtube_ar.Service.Playlist.{
  create_in_transaction, found, get_or_create_youtube_video, create_all, create_urls_from_youtube,
}
use youtube_ar.Service.Playlist.Atomic.{AllOrNothing, create_in_transaction-AllOrNothing}
use youtube_ar.Service.Playlist.Once.{
  returned-with_id, with_id, AreOnce, tables_in, looked_up, create_urls-AreOnce,
}

-- A video has a row.
abbrev pub Has : Tables → String → Type 0
Has t id = 1 ≤ length (with_id id t.youtube_videos)

length-added :
    (videos : List YoutubeVideo) (v : YoutubeVideo) (id : String)
    → length (with_id id (videos ++ v ∷ []))
      ≡ length (with_id id videos) + length (with_id id (v ∷ []))
length-added videos v id =
    ap (length {0}) (filter-append (λ x. str_eq x.youtube_id id) videos (v ∷ []))
    ∙ length-append (with_id id videos) (with_id id (v ∷ []))

added_self : (v : YoutubeVideo) → length (with_id v.youtube_id (v ∷ [])) ≡ 1
added_self v = rw (str_eq_refl v.youtube_id) refl

head-length : (l : List YoutubeVideo) (v : YoutubeVideo) → head? l ≡ some v → 1 ≤ length l
head-length [] v h = cc
head-length (x ∷ l) v h = omega arith

module _ (r : Redis) (db : Querier) (pg : Postgres db) (ctx : Context)
    (commits : (c : db.Conn) → (db.commit c).0 ≡ ok tt) where
  abbrev W : Type 0
  W = World r db.Conn

  abbrev tables : W → Tables
  tables = tables_in r db pg ctx

  -- No video loses its row, and without an error the one asked for has one.
  abbrev Loads : String → W → Result YoutubeVideo × W → Type 0
  Loads youtube_id w (a, w') =
      ((id : String) → Has (tables w) id → Has (tables w') id)
      × ((v : YoutubeVideo) → a ≡ ok v → Has (tables w') youtube_id)

  created-Loads :
      (youtube_id : String) (w : W) (x : Result YoutubeVideo × W)
      → AllOrNothing r db pg ctx youtube_id w x
      → Loads youtube_id w x
  created-Loads youtube_id w (ok v, w') (inl ((c, fails), e)) = absurd (fails (commits c))
  created-Loads youtube_id w (ok v, w') (inr (now, now', e)) =
      let videos = (tables w).youtube_videos in
      let row : YoutubeVideo = record {
        id = (tables w).next_video_id;
        youtube_id = youtube_id;
        created_at = now;
      } in
      rw e (
        (λ id has. omega (arith, length-added videos row id, has)),
        (λ u h. omega (arith, length-added videos row youtube_id, added_self row)),
      )
  created-Loads youtube_id w (err x, w') e = rw e ((λ id has. has), (λ u h. cc))

  found-Loads :
      (youtube_id : String) (a : Result YoutubeVideo) (w : W)
      → ((v : YoutubeVideo) → a ≡ ok v → Has (tables w) youtube_id)
      → Loads youtube_id w (found r db ctx youtube_id (a, w))
  found-Loads youtube_id (ok v) w h = ((λ id has. has), (λ u k. h v refl))
  found-Loads youtube_id (err no_rows) w h =
      created-Loads youtube_id w (create_in_transaction r db ctx youtube_id w)
        (create_in_transaction-AllOrNothing r db pg ctx youtube_id w)
  found-Loads youtube_id (err redis_nil) w h = ((λ id has. has), (λ u k. cc))
  found-Loads youtube_id (err canceled) w h = ((λ id has. has), (λ u k. cc))
  found-Loads youtube_id (err deadline_exceeded) w h = ((λ id has. has), (λ u k. cc))
  found-Loads youtube_id (err (failed text)) w h = ((λ id has. has), (λ u k. cc))

  get_or_create-Loads :
      (youtube_id : String) (w : W)
      → Loads youtube_id w (get_or_create_youtube_video r db ctx youtube_id w)
  unfolding get_or_create_youtube_video Store.get_youtube_video_by_youtube_id
  get_or_create-Loads youtube_id w =
      let st = get_youtube_video_statement youtube_id in
      let (a, c) = db.query_youtube_video ctx st w.rest in
      let w1 : W = record w { rest = c } in
      let same : tables w1 ≡ tables w = looked_up r db pg ctx youtube_id w in
      let (keeps, loads) = found-Loads youtube_id a w1 λ v h.
        let first =
          ap (λ (t : Tables). head? (with_id youtube_id t.youtube_videos)) same
          ∙ ap head? (sym (returned-with_id (pg.clock w.rest) youtube_id (pg.tables w.rest)))
          ∙ (pg.query_video_ok ctx st w.rest v h).0 in
        head-length _ v first in
      ((λ id has. keeps id (rw same has)), loads)

  -- No video loses its row, and without an error all those that are named have one.
  abbrev AllLoads : List String → W → Result (Unit {0}) × W → Type 0
  AllLoads videos w (a, w') =
      ((id : String) → Has (tables w) id → Has (tables w') id)
      × (a ≡ ok tt → All (Has (tables w')) videos)

  create_all-AllLoads :
      (videos : List String) (w : W) → AllLoads videos w (create_all r db ctx videos w)
  unfolding create_all
  create_all-AllLoads [] w = ((λ id has. has), (λ h. tt))
  create_all-AllLoads (youtube_id ∷ videos) w =
      let x = get_or_create_youtube_video r db ctx youtube_id w in
      let (keeps, loads) = get_or_create-Loads youtube_id w in
      elim (Result-cases x.0) [
        | inl (v, h) ↦
            let (keeps_on, loads_on) = create_all-AllLoads videos x.1 in
            subst (AllLoads (youtube_id ∷ videos) w)
              (sym (and_then-ok x v (λ _. create_all r db ctx videos) h))
              (
                (λ id has. keeps_on id (keeps id has)),
                (λ k. (keeps_on youtube_id (loads v h), loads_on k)),
              )
        | inr (e, h) ↦
            subst (AllLoads (youtube_id ∷ videos) w)
              (sym (and_then-err x e (λ _. create_all r db ctx videos) h))
              (keeps, (λ k. absurd (err-ne-ok e tt k)))
      ]

  exactly :
      (videos : List String) (w : W)
      → AreOnce (tables w)
      → All (Has (tables w)) videos
      → All (λ id. length (with_id id (tables w).youtube_videos) ≡ 1) videos
  exactly [] w once h = tt
  exactly (id ∷ videos) w once (has, h) = (omega (arith, has, once id), exactly videos w once h)

  -- Where no commit fails and no video has two rows, a playlist that is loaded without an error leaves
  -- exactly one row for each of its videos, and no video that had a row loses it.
  pub create_urls_loads :
      (videos : List String) (w : W)
      → AreOnce (tables w)
      → let (result, w') = create_urls_from_youtube r db ctx (ok videos) w in
        result ≡ ok tt
        → All (λ id. length (with_id id (tables w').youtube_videos) ≡ 1) videos
          × ((id : String) → Has (tables w) id → Has (tables w') id)
  unfolding create_urls_from_youtube
  create_urls_loads videos w once h =
      let (keeps, loads) = create_all-AllLoads videos w in
      let once' = create_urls-AreOnce r db pg ctx (ok videos) w once in
      (exactly videos (create_all r db ctx videos w).1 once' (loads h), keeps)
