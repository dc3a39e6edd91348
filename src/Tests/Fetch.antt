-- ===== src/Tests/Fetch.antt =====
-- The clients and the downloader on concrete answers of the services and the processes.
use Prim.Native.String.{count}
use youtube_ar.Base.{
  String, List, [], ◌∷◌, ◌≡◌, ◌≢◌, refl, ap, codes, arith, some, none, false, true, ok, err, failed,
  live, Result, str_eq, if◌then◌else◌,
}
use youtube_ar.Youtube.{PlaylistItems, get_videos_from_playlist, get_playlist_items}
use youtube_ar.Youtube.Pages.{last, more, get_videos_from_playlist_complete}
use youtube_ar.Oembed.{find, discover}
use youtube_ar.Oembed.Html.{Node}
use youtube_ar.Oembed.Providers.{known_providers}
use youtube_ar.Oembed.Known.{find_known_errors}
use youtube_ar.Oembed.Glob.{match}
use youtube_ar.Process.{Process}
use youtube_ar.Tor
use youtube_ar.Tor.{TorEvent}
use youtube_ar.Youtubedl.{YoutubedlEvent}
use youtube_ar.Model.{zero_url}
use youtube_ar.Sql.Meaning.{Tables}
use youtube_ar.Sql.Memory.{Memory, memory}
use youtube_ar.Downloader.{Event, from_youtubedl, Files, Ended, download_url}
use youtube_ar.Downloader.Ending.{SavedAfter, first_signal, download_url_hangs, download_url_saves}

-- Two pages: the first one's token is "p".
abbrev has_page : List (String × String) → Result PlaylistItems
has_page (_ ∷ _ ∷ _ ∷ (key, _) ∷ _) =
    if str_eq key "pageToken"
    then ok (record { next_page_token = ""; items = "c" ∷ [] })
    else ok (record { next_page_token = "p"; items = "a" ∷ "b" ∷ [] })
has_page _ = ok (record { next_page_token = "p"; items = "a" ∷ "b" ∷ [] })

p_ne : ◌≢◌ {A = String} "p" ""
p_ne e = omega (arith, ap count e)

get_videos_from_playlist_complete_example :
    get_videos_from_playlist "k" has_page 2 "l" ≡ some (ok ("a" ∷ "b" ∷ "c" ∷ []))
unfolding get_playlist_items
get_videos_from_playlist_complete_example =
    get_videos_from_playlist_complete "k" has_page "l" 2 (omega arith) (
      more (record { next_page_token = "p"; items = "a" ∷ "b" ∷ [] }) refl p_ne
        (last (record { next_page_token = ""; items = "c" ∷ [] }) refl refl))

abbrev no_answer : String → Result String
no_answer url = err (failed "timeout")

abbrev no_document : String → Result Node
no_document body = err (failed "no document")

abbrev joined : String → String → String
joined endpoint url = endpoint

find_known_errors_example :
    discover no_answer no_document joined "https://x.y/" ≡ err (failed "timeout")
unfolding find discover known_providers
find_known_errors_example =
    find_known_errors no_answer no_document joined "https://x.y/" (failed "timeout") refl

match_class : match (codes "/[^a-c\\]]/?") (codes "/d/e") ≡ some true
unfolding match
match_class = refl

match_class_other : match (codes "/[^a-c\\]]/?") (codes "/]/e") ≡ some false
unfolding match
match_class_other = refl

match_malformed : match (codes "/[a-") (codes "/a") ≡ none
unfolding match
match_malformed = refl

-- A tor process that prints one line and ends.
abbrev quiet_tor : Process
quiet_tor = record {
  temp_dir = ok "/tmp/tor";
  stderr_pipe = ok tt;
  stdout_pipe = ok tt;
  start = ok tt;
  output = "Bootstrapped 10%" ∷ [];
  wait = ok tt;
}

abbrev files : Files (Unit {0})
files = record {
  dir = λ p. "/tmp/d";
  base = λ p. "v.mp4";
  open_file = λ p. ok tt;
  save = λ name f. ok tt;
}

abbrev no_tables : Tables
no_tables = record { urls = []; next_id = 1; youtube_videos = []; next_video_id = 1 }

abbrev conn : Memory
conn = record { tables = no_tables; base = no_tables }

abbrev one_file : String → List Event
one_file proxy = from_youtubedl (YoutubedlEvent.success "/tmp/d/v.mp4") ∷ []

download_url_hangs_example :
    (download_url (memory false) live zero_url files (Tor.start quiet_tor) one_file conn).0 ≡ none
unfolding Tor.is_bootstrapped
download_url_hangs_example =
    download_url_hangs (memory false) live zero_url files quiet_tor "/tmp/tor" one_file conn refl
      refl refl refl (refl, tt) refl

abbrev saved : Ended
saved = record { result = ok "v.mp4"; removed = "/tmp/d" ∷ [] }

download_url_saves_example :
    SavedAfter
      (memory false)
      live
      zero_url
      files
      (first_signal (TorEvent.log "l" ∷ TorEvent.ready "socks5://localhost:9051" ∷ []))
      one_file
      saved
      "v.mp4"
unfolding download_url
download_url_saves_example =
    download_url_saves (memory false) live zero_url files
      (TorEvent.log "l" ∷ TorEvent.ready "socks5://localhost:9051" ∷ []) one_file conn saved "v.mp4"
      refl refl
