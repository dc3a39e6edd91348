-- ===== src/Tests/Manager.antt =====
-- The server's manager over lists and tables in memory.
use youtube_ar.Base.{String, List, [], Bool, true, false, ok, ◌≡◌, ◌≢◌, refl, live, arith}
use youtube_ar.Model.{Url, zero_url}
use youtube_ar.Event.{UrlPayload}
use youtube_ar.Redis.Memory.{memory as redis, memory-RedisLists}
use youtube_ar.Sql.Meaning.{Tables}
use youtube_ar.Sql.Memory.{Memory, memory, memory-Postgres}
use youtube_ar.Broker.{World}
use youtube_ar.Broker.Lists.{listed}
use youtube_ar.Manager.Server.{create_url}
use youtube_ar.Manager.Server.Queues.{Inserted, Created, create_url-Created, create_url_unsent}

abbrev sound : String → Bool
sound k = false

abbrev unsound : String → Bool
unsound k = true

abbrev no_tables : Tables
no_tables = record { urls = []; next_id = 1; youtube_videos = []; next_video_id = 1 }

abbrev no_lists : String → List String
no_lists k = []

abbrev world : (broken : String → Bool) → World (redis broken) Memory
world broken = record {
  redis = no_lists;
  logged = [];
  rest = record { tables = no_tables; base = no_tables };
}

abbrev payload : UrlPayload
payload = record { url = "u"; retries = 0 }

create_url-Created_example :
    Created
      (redis sound)
      (memory-RedisLists sound)
      (memory false)
      (memory-Postgres false)
      payload
      (world sound)
      (create_url (redis sound) (memory false) live payload (world sound))
create_url-Created_example =
    create_url-Created (redis sound) (memory-RedisLists sound) (memory false)
      (memory-Postgres false) (λ k v s. refl) live payload (world sound)

abbrev created : Url
created = record zero_url { id = 1; created_at = 7; updated_at = 7; url = "u"; status = "pending" }

lpush_unsound : (k v : String) (s : String → List String) → ((redis unsound).lpush k v s).0 ≢ ok tt
lpush_unsound k v s h = ground arith

create_url_unsent_example :
    let w' = (create_url (redis unsound) (memory false) live payload (world unsound)).1 in
    ((create_url (redis unsound) (memory false) live payload (world unsound)).0 ≡ ok created)
    × Inserted
        (redis unsound)
        (memory-RedisLists unsound)
        (memory false)
        (memory-Postgres false)
        payload
        (world unsound)
        w'
    × (listed (redis unsound) (memory-RedisLists unsound) Memory w' "download-url"
        ≡ listed (redis unsound) (memory-RedisLists unsound) Memory (world unsound) "download-url")
unfolding create_url memory-Postgres
create_url_unsent_example =
    create_url_unsent (redis unsound) (memory-RedisLists unsound) (memory false)
      (memory-Postgres false) lpush_unsound live payload (world unsound) created "download-url" refl
