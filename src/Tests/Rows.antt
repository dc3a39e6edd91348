-- ===== src/Tests/Rows.antt =====
-- The worker's manager over tables in memory.
use youtube_ar.Base.{
  String, ℕ, String, [], ◌∷◌, none, false, err, canceled, failed, refl, inl, live, done, All,
}
use youtube_ar.Model.{zero_url}
use youtube_ar.Event.{UrlEvent}
use youtube_ar.Sql.Meaning.{UrlRow, Tables, updated}
use youtube_ar.Sql.Memory.{Memory, memory, first_search}
use youtube_ar.Store.{lock_url_statement}
use youtube_ar.Manager.Worker.{finished, Downloader, OEmbed, processing, download_url}
use youtube_ar.Manager.Worker.Settles.{state_of, valid_string}
use youtube_ar.Manager.Worker.Status.{
  lock, here, next, IsConsistent, Holds, Reach-IsConsistent, Reach-Holds,
}

abbrev row : ℕ → String → UrlRow
row id status = record {
  url = record zero_url { id = id; url = "u"; status = status };
  deleted_at = none;
}

abbrev tables : Tables
tables = record {
  urls = row 1 "pending" ∷ row 2 "pending" ∷ [];
  next_id = 3;
  youtube_videos = [];
  next_video_id = 1;
}

abbrev conn : Memory
conn = record { tables = tables; base = tables }

-- A download during which the context is cancelled, and that fails.
abbrev cancelled_download : Downloader (memory false)
cancelled_download ctx u c = (finished (err (failed "signal: killed")), done canceled, c)

abbrev no_oembed : OEmbed
no_oembed ctx url = err (failed "none")

abbrev event : UrlEvent
event = record { id = 2; url = "u" }

abbrev after : Memory
after = (download_url (memory false) cancelled_download no_oembed live event conn).1

abbrev done_conn : Memory
done_conn =
    let t : Tables = record tables { urls = row 1 "pending" ∷ row 2 "success" ∷ [] } in
    record { tables = t; base = t }

abbrev locked : Tables
locked = updated first_search 9 (lock_url_statement (processing event)) tables

Reach-IsConsistent_example : All IsConsistent locked.urls
Reach-IsConsistent_example =
    Reach-IsConsistent first_search {t = tables} {t' = locked}
      (inl (inl refl, refl, refl), (inl (inl refl, refl, refl), tt)) (next here (lock 9 event refl))

abbrev done_row : UrlRow
done_row = record {
  url = record zero_url { id = 2; url = "u"; status = "success"; file = valid_string "f" };
  deleted_at = none;
}

abbrev done_tables : Tables
done_tables = record { urls = done_row ∷ []; next_id = 3; youtube_videos = []; next_video_id = 1 }

Reach-Holds_example :
    Holds 2
      (state_of done_row)
      (updated first_search 9 (lock_url_statement (processing event)) done_tables)
Reach-Holds_example =
    Reach-Holds first_search 2 (state_of done_row) (inl refl) {t = done_tables}
      (done_row, refl, refl) (next here (lock 9 event refl))
