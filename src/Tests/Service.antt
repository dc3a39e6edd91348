-- ===== src/Tests/Service.antt =====
-- The services over lists and tables in memory.
use youtube_ar.Base.{
  ℕ, zero, suc, ◌≤◌, String, List, [], ◌∷◌, none, some, Bool, true, false, ok, ◌≡◌, ◌≢◌, refl, live,
  Result, arith, str_eq, if◌then◌else◌, eq_iff, All, length,
}
use youtube_ar.Model.{Url, YoutubeVideo, zero_url}
use youtube_ar.Event.{UrlEvent, marshal}
use youtube_ar.Redis.Memory.{memory as redis, memory-RedisLists}
use youtube_ar.Sql.Meaning.{Tables}
use youtube_ar.Sql.Memory.{Memory, memory, memory-Postgres}
use youtube_ar.Broker.{World, failed_of}
use youtube_ar.Broker.Lists.{listed}
use youtube_ar.Service.Retrier.Next.{Popped, retry_next_download_url-Popped}
use youtube_ar.Service.Retrier.{retry_download_url, retry_next_download_url, retry_if_due}
use youtube_ar.Service.Retrier.Removal.{retry_download_url_keeps_failed}
use youtube_ar.Service.Retrier.Bound.{first, again, Retried-le-five}
use youtube_ar.Service.Playlist.{create_in_transaction, create_urls_from_youtube}
use youtube_ar.Service.Playlist.Loaded.{Has, create_urls_loads}
use youtube_ar.Service.Playlist.Once.{with_id, AreOnce, tables_in, create_urls-AreOnce}
use youtube_ar.Service.Playlist.Atomic.{AllOrNothing, create_in_transaction-AllOrNothing}

abbrev sound : String → Bool
sound k = false

abbrev failed_text : String
failed_text = marshal (record { id = 1; url = "u" })

abbrev lists : String → List String
lists k = if str_eq k "download-url:failed" then failed_text ∷ [] else []

abbrev killed : Url
killed = record zero_url {
  id = 1;
  url = "u";
  status = "failure";
  error = record { valid = true; string = "signal: killed" };
}

abbrev tables : Tables
tables = record {
  urls = record { url = killed; deleted_at = none } ∷ [];
  next_id = 2;
  youtube_videos = [];
  next_video_id = 1;
}

abbrev world : (broken : Bool) → World (redis sound) Memory
world broken = record {
  redis = lists;
  logged = [];
  rest = record { tables = tables; base = tables };
}

abbrev unmarshal : String → Result UrlEvent
unmarshal s = ok (record { id = 1; url = "u" })

url_ne : ◌≢◌ {A = String} "u" ""
url_ne = ground (arith, eq_iff "u" "")

retry_download_url_keeps_failed_example :
    listed
      (redis sound)
      (memory-RedisLists sound)
      Memory
      (retry_download_url (redis sound) (memory false) unmarshal live 1 (world false)).1
      (failed_of "download-url")
    ≡ listed (redis sound) (memory-RedisLists sound) Memory (world false) (failed_of "download-url")
unfolding memory-RedisLists
retry_download_url_keeps_failed_example =
    retry_download_url_keeps_failed (redis sound) (memory-RedisLists sound) (memory false) unmarshal
      live 1 (world false) ((1, "u", url_ne, refl), tt)

abbrev retried : Url
retried = record zero_url {
  id = 2;
  url = "u";
  created_at = 7;
  updated_at = 7;
  status = "pending";
  retries = record { valid = true; int64 = 1 };
}

retry_run :
    (retry_if_due (redis sound) (memory false) unmarshal live killed (world false)).0
    ≡ ok (some retried)
unfolding retry_if_due
retry_run = refl

-- The rows that the retries create, after their downloads have been killed.
abbrev killed_again : ℕ → Url
killed_again n = record killed { id = 2; retries = record { valid = true; int64 = n } }

abbrev retried_again : Url
retried_again = record retried { retries = record { valid = true; int64 = 2 } }

retry_run_again :
    (retry_if_due (redis sound) (memory false) unmarshal live (killed_again 1) (world false)).0
    ≡ ok (some retried_again)
unfolding retry_if_due
retry_run_again = refl

Retried-le-five_example : (2 ≤ 5) × ((killed_again 2).url ≡ killed.url)
Retried-le-five_example =
    Retried-le-five (redis sound) (memory false) (memory-Postgres false) unmarshal {u = killed}
      {v = killed_again 2} {n = suc (suc zero)} refl
      (again live (world false) (again live (world false) first retry_run refl refl) retry_run_again
        refl refl)

create_in_transaction-AllOrNothing_example :
    AllOrNothing
      (redis sound)
      (memory true)
      (memory-Postgres true)
      live
      "x"
      (world true)
      (create_in_transaction (redis sound) (memory true) live "x" (world true))
create_in_transaction-AllOrNothing_example =
    create_in_transaction-AllOrNothing (redis sound) (memory true) (memory-Postgres true) live "x"
      (world true)

abbrev video : YoutubeVideo
video = record { id = 1; youtube_id = "x"; created_at = 7 }

retry_next_download_url-Popped_example :
    Popped
      (redis sound)
      (memory-RedisLists sound)
      (memory false)
      (memory-Postgres false)
      unmarshal
      (λ k v s. refl)
      live
      failed_text
      (world false)
      (retry_next_download_url (redis sound) (memory false) unmarshal live (world false))
retry_next_download_url-Popped_example =
    retry_next_download_url-Popped (redis sound) (memory-RedisLists sound) (memory false)
      (memory-Postgres false) unmarshal (λ k v s. refl) live failed_text (world false) refl

create_urls-AreOnce_example : AreOnce (
    tables_in
      (redis sound)
      (memory false)
      (memory-Postgres false)
      live
      (create_urls_from_youtube
        (redis sound)
        (memory false)
        live
        (ok ("x" ∷ "x" ∷ []))
        (world false)).1)
unfolding memory-Postgres
create_urls-AreOnce_example =
    create_urls-AreOnce (redis sound) (memory false) (memory-Postgres false) live
      (ok ("x" ∷ "x" ∷ [])) (world false) (λ id. omega arith)

create_urls_loads_example :
    let pg = memory-Postgres false in
    let w' =
      (create_urls_from_youtube
        (redis sound)
        (memory false)
        live
        (ok ("x" ∷ "x" ∷ []))
        (world false)).1 in
    All
      (λ id.
        length (with_id id (tables_in (redis sound) (memory false) pg live w').youtube_videos) ≡ 1)
      ("x" ∷ "x" ∷ [])
    × ((id : String)
        → Has (tables_in (redis sound) (memory false) pg live (world false)) id
        → Has (tables_in (redis sound) (memory false) pg live w') id)
unfolding memory-Postgres create_urls_from_youtube
create_urls_loads_example =
    create_urls_loads (redis sound) (memory false) (memory-Postgres false) live (λ c. refl)
      ("x" ∷ "x" ∷ []) (world false) (λ id. omega arith) refl
