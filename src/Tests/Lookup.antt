-- ===== src/Tests/Lookup.antt =====
-- Ids, and urls looked up by theirs, over tables in memory.
use youtube_ar.Base.{[], false, ok, err, GoError, no_rows, live, ◌≡◌, ◌≢◌, ◌⊎◌, refl, arith}
use youtube_ar.Model.{Url, zero_url}
use youtube_ar.Sql.Meaning.{Tables, updated}
use youtube_ar.Sql.Memory.{Memory, memory, memory-Postgres, first_search}
use youtube_ar.Store.{create_url, get_url, delete_url, create_url_statement}
use youtube_ar.Store.Ids.{AreNumbered, Reach-AreNumbered}
use youtube_ar.Store.Lookup.{get_url-create_url, get_url-delete_url}
use youtube_ar.Manager.Worker.Status.{create, here, next}

abbrev no_tables : Tables
no_tables = record { urls = []; next_id = 1; youtube_videos = []; next_video_id = 1 }

abbrev new : Url
new = record zero_url { url = "u" }

abbrev one_url : Tables
one_url = updated first_search 7 (create_url_statement new) no_tables

one_url-AreNumbered : AreNumbered one_url
one_url-AreNumbered = (omega arith, omega arith)

Reach-AreNumbered_example : AreNumbered one_url
Reach-AreNumbered_example =
    Reach-AreNumbered first_search {t = no_tables} {t' = one_url} (omega arith)
      (next here (create 7 new refl))

abbrev conn : Memory
conn = record { tables = one_url; base = one_url }

-- The url that the second insertion returns.
abbrev second : Url
second = record zero_url { id = 2; created_at = 7; updated_at = 7; url = "u"; status = "pending" }

get_url-create_url_example :
    let found = (get_url (memory false) live 2 (create_url (memory false) live new conn).1).0 in
    (found ≡ ok second) ⊎ ((e : GoError) × (found ≡ err e) × (e ≢ no_rows))
unfolding create_url memory-Postgres
get_url-create_url_example =
    get_url-create_url (memory false) (memory-Postgres false) live live new second conn
      one_url-AreNumbered refl

get_url-delete_url_example :
    (get_url (memory false) live 1 (delete_url (memory false) 9 live 1 conn).1).0 ≢ ok second
unfolding delete_url
get_url-delete_url_example =
    get_url-delete_url (memory false) (memory-Postgres false) live live 9 1 conn second refl
