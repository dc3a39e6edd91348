-- ===== src/Tests/Pages.antt =====
-- Pages of urls over tables in memory.
use youtube_ar.Base.{
  ℕ, String, List, [], ◌∷◌, map, none, some, false, ok, err, GoError, live, ◌≡◌, ◌≢◌, ◌⊎◌, refl, ap,
  arith,
}
use Prim.Native.String.{count}
use youtube_ar.Model.{Url, zero_url}
use youtube_ar.Sql.Meaning.{UrlRow, Tables, row_url}
use youtube_ar.Sql.Memory.{Memory, memory, memory-Postgres}
use youtube_ar.Store.{list_urls}
use youtube_ar.Store.Pages.{listing, follow}
use youtube_ar.Store.Pages.Complete.{Refused, follow_complete}
use youtube_ar.Store.Pages.Search.{search_loses}

abbrev row : ℕ → UrlRow
row id = record {
  url = record zero_url { id = id; url = "u"; status = "success" };
  deleted_at = none;
}

abbrev deleted : UrlRow → UrlRow
deleted r = record r { deleted_at = some 5 }

abbrev rows : List UrlRow
rows = row 1 ∷ row 2 ∷ deleted (row 3) ∷ row 4 ∷ []

abbrev tables : List UrlRow → Tables
tables rs = record { urls = rs; next_id = 5; youtube_videos = []; next_video_id = 1 }

abbrev conn : List UrlRow → Memory
conn rs = record { tables = tables rs; base = tables rs }

follow_pages :
    (follow (memory false) live 2 none 4 0 (conn rows)).0
    ≡ ok (map row_url (row 4 ∷ row 2 ∷ row 1 ∷ []))
unfolding follow
follow_pages = refl

follow_complete_example :
    let result = (follow (memory false) live 2 none 4 0 (conn rows)).0 in
    (result ≡ ok (map row_url (listing none rows)))
    ⊎ ((e : GoError) × Refused (memory false) live 2 none e × (result ≡ err e))
unfolding memory-Postgres
follow_complete_example =
    follow_complete (memory false) (memory-Postgres false) live 2 none 4 (conn rows)
      (omega arith, (omega arith, (omega arith, (omega arith, omega arith)))) (omega arith)
      (omega arith) (omega arith)

q_ne : ◌≢◌ {A = String} "q" ""
q_ne e = omega (arith, ap count e)

search_loses_example : ((row 1).url ∷ [] ≡ (row 1).url ∷ []) × (◌≡◌ {A = List Url} [] [])
unfolding list_urls memory-Postgres
search_loses_example =
    search_loses (memory false) (memory-Postgres false) live live "q" (row 1) (row 2)
      (conn (row 1 ∷ row 2 ∷ [])) (conn (row 1 ∷ row 2 ∷ [])) ((row 1).url ∷ []) [] q_ne
      (refl, refl, omega arith, omega arith, omega arith, refl, refl, omega arith) refl refl refl
      refl
