-- ===== src/Service/Playlist.antt =====
-- api/service/playlist-loader.go
pub mod Atomic
pub mod Once
pub mod Loaded
use youtube_ar.Base.{String, ◌<>◌, List, [], ◌∷◌, Result, ok, err, no_rows, M, Context, ◌>>=◌, pure}
use youtube_ar.Model.{YoutubeVideo}
use youtube_ar.Event.{UrlPayload}
use youtube_ar.Sql.{Querier}
use youtube_ar.Store
use youtube_ar.Store.Transaction.{transaction}
use youtube_ar.Redis.{Redis}
use youtube_ar.Broker.{World}
use youtube_ar.Manager.Server.{on_store, create_url}

abbrev pub new_video : String → YoutubeVideo
new_video youtube_id = record { id = 0; youtube_id = youtube_id; created_at = 0 }

abbrev pub watch_payload : String → UrlPayload
watch_payload youtube_id = record {
  url = "https://www.youtube.com/watch?v=" <> youtube_id;
  retries = 0;
}

module _ (r : Redis) (db : Querier) (ctx : Context) where
  -- The function that runs in the transaction.
  unfoldable pub create_video : String → M (World r db.Conn) YoutubeVideo
  unfolding Store.create_youtube_video create_url
  create_video youtube_id = do
    v ← on_store r db (Store.create_youtube_video db ctx (new_video youtube_id))
    url ← create_url r db ctx (watch_payload youtube_id)
    pure v

  unfoldable pub create_in_transaction : String → M (World r db.Conn) YoutubeVideo
  unfolding create_video transaction
  create_in_transaction youtube_id =
      transaction (on_store r db (db.begin_tx ctx)) (on_store r db db.commit)
        (on_store r db db.rollback) (create_video youtube_id)

  abbrev pub found :
      String → Result YoutubeVideo × World r db.Conn → Result YoutubeVideo × World r db.Conn
  found youtube_id (ok v, w) = (ok v, w)
  found youtube_id (err no_rows, w) = create_in_transaction youtube_id w
  found youtube_id (err e, w) = (err e, w)

  unfoldable pub get_or_create_youtube_video : String → M (World r db.Conn) YoutubeVideo
  unfolding Store.get_youtube_video_by_youtube_id create_in_transaction
  get_or_create_youtube_video youtube_id w =
      found youtube_id (on_store r db (Store.get_youtube_video_by_youtube_id db ctx youtube_id) w)

  -- The loop over the videos' ids.
  unfoldable pub create_all : List String → M (World r db.Conn) (Unit {0})
  unfolding get_or_create_youtube_video
  create_all [] = pure tt
  create_all (youtube_id ∷ more) = get_or_create_youtube_video youtube_id >>= λ _. create_all more

  -- `videos` is what the youtube client gives of the playlist.
  unfoldable pub create_urls_from_youtube : Result (List String) → M (World r db.Conn) (Unit {0})
  unfolding create_all
  create_urls_from_youtube (err e) w = (err e, w)
  create_urls_from_youtube (ok videos) w = create_all videos w
