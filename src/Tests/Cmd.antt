-- ===== src/Tests/Cmd.antt =====
-- Commands over lists and tables in memory.
use youtube_ar.Base.{String, [], ◌∷◌, some, Bool, false, ok, err, failed, live, ◌≡◌, refl, codes}
use youtube_ar.Redis.Memory.{memory as redis}
use youtube_ar.Sql.Meaning.{Tables}
use youtube_ar.Sql.Memory.{memory}
use youtube_ar.Youtubedl.{YoutubedlEvent}
use youtube_ar.Server.Number.{parse_int}
use youtube_ar.Cmd.{returned, exited, Setup, Machine, create_url, download_url}
use youtube_ar.Cmd.Create.{given, replaced, Runs, create_url-Runs}
use youtube_ar.Main.{choose, runs, list_urls_cmd}

abbrev sound : String → Bool
sound k = false

abbrev setup : Setup
setup = record {
  redis = ok tt;
  db = ok tt;
  parse_int64 = λ s. parse_int (codes s);
  parse_url = λ s. ok tt;
  unmarshal = λ s. err (failed "no event");
  videos = λ p. ok [];
  oembed = λ u. err (failed "none");
  stream = λ u. YoutubedlEvent.log "l" ∷ YoutubedlEvent.failure (failed "exit status 1") ∷ [];
  show_url = λ u. u.url;
  show_log = λ l. l.log;
}

abbrev no_tables : Tables
no_tables = record { urls = []; next_id = 1; youtube_videos = []; next_video_id = 1 }

abbrev machine : Machine (redis sound) (memory false) setup live
machine = record {
  world = record {
    redis = λ k. [];
    logged = [];
    rest = record { tables = no_tables; base = no_tables };
  };
  printed = [];
}

download_fails :
    download_url (redis sound) (memory false) setup live ("--url=u" ∷ []) machine
    ≡ (returned (some (failed "exit status 1")), record machine { printed = "l" ∷ [] })
unfolding download_url
download_fails = refl

unknown_flag :
    (download_url (redis sound) (memory false) setup live ("-u" ∷ "x" ∷ []) machine).0 ≡ exited
unfolding download_url
unknown_flag = refl

no_flags :
    (create_url (redis sound) (memory false) setup live ("x" ∷ []) machine).0
    ≡ returned (some (failed "url is required"))
unfolding create_url
no_flags = refl

choose_list_urls :
    choose "youtube-ar" ("list-urls" ∷ "-limit" ∷ "2" ∷ [])
    ≡ runs list_urls_cmd ("-limit" ∷ "2" ∷ [])
unfolding choose
choose_list_urls = refl

create_url-Runs_example :
    Runs (redis sound) (memory false) setup live "u" machine (
      create_url (redis sound) (memory false) setup live ("-url" ∷ "t" ∷ "-url" ∷ "u" ∷ []) machine)
create_url-Runs_example =
    create_url-Runs (redis sound) (memory false) setup live {url = "u"}
      {args = "-url" ∷ "t" ∷ "-url" ∷ "u" ∷ []} machine (replaced "t" given)
