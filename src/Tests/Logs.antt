-- ===== src/Tests/Logs.antt =====
-- A client that polls a log in memory.
use youtube_ar.Base.{ℕ, List, [], ◌∷◌, ◌++◌, none, false, live, done, canceled, ◌≡◌, refl, arith}
use youtube_ar.Model.{Log, zero_url}
use youtube_ar.Resource.{new_logs}
use youtube_ar.Sql.Meaning.{UrlRow, Tables}
use youtube_ar.Sql.Memory.{Memory, memory, memory-Postgres}
use youtube_ar.Store.Logs.{logs_of}
use youtube_ar.Store.Logs.Polling.{
  Call, appends, polls, Client, new_client, run, appended, polling_complete,
}

abbrev row : ℕ → UrlRow
row id = record { url = record zero_url { id = id; url = "u"; logs = "a" ∷ [] }; deleted_at = none }

abbrev tables : Tables
tables = record { urls = row 1 ∷ row 2 ∷ []; next_id = 3; youtube_videos = []; next_video_id = 1 }

abbrev conn : Memory
conn = record { tables = tables; base = tables }

abbrev second : Log
second = record { log = "b" }

-- The second line is not stored.
abbrev calls : List Call
calls =
    polls live ∷ appends live second ∷ appends (done canceled) second ∷ polls (done canceled) ∷ []

abbrev before : Client
before = (run (memory false) 2 calls new_client conn).0

polling_complete_example :
    before.seen ++ second ∷ [] ≡ logs_of (row 2) ++ appended (memory false) 2 calls new_client conn
unfolding run memory-Postgres new_logs
polling_complete_example =
    polling_complete (memory false) 2 (memory-Postgres false) calls conn (row 2) live (second ∷ [])
      refl (omega arith) refl
