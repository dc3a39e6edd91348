-- ===== src/Cmd.antt =====
-- api/cmd.go: the commands that run one operation of the program each.
pub mod Flags
pub mod Create
pub mod Limit
use youtube_ar.Base.{
  ℕ, String, ◌<>◌, List, [], ◌∷◌, ◌++◌, Option, none, some, Bool, true, false, Result, ok, err,
  GoError, failed, str_eq, ◌==◌, if◌then◌else◌, Context, M, map,
}
use youtube_ar.Model.{Url, Log, should_retry}
use youtube_ar.Event.{UrlEvent, UrlPayload, validate}
use youtube_ar.Query.{UrlsQuery, LogsQuery}
use youtube_ar.Sql.{Querier}
use youtube_ar.Store
use youtube_ar.Redis.{Redis}
use youtube_ar.Broker.{World}
use youtube_ar.Manager.Server.{on_store}
use youtube_ar.Manager.Server as Manager
use youtube_ar.Service.Retrier.{retry_next_download_url}
use youtube_ar.Service.Playlist.{create_urls_from_youtube}
use youtube_ar.Youtubedl.{YoutubedlEvent}
use youtube_ar.Cmd.Flags.{
  FlagSet, string_var, int64_var, Assigned, parse, string_value, int64_value,
}

-- How a command ends: it returns an error or nil, or the package flag ends the process.
pub data CommandEnd : Type 0 where
  returned : Option GoError → CommandEnd
  exited : CommandEnd

-- What newRedis and newDB give, and what a command uses of the other packages: `videos` is the youtube
-- client, `oembed` the oembed client, `stream` the events of youtube-dl, `show_url` and `show_log` the
-- format `%+v`.
pub record Setup : Type 0 where
  pub redis : Result (Unit {0})
  pub db : Result (Unit {0})
  pub parse_int64 : String → Option ℕ
  pub parse_url : String → Result (Unit {0})
  pub unmarshal : String → Result UrlEvent
  pub videos : String → Result (List String)
  pub oembed : String → Result String
  pub stream : String → List YoutubedlEvent
  pub show_url : Url → String
  pub show_log : Log → String

-- fmt.Println of a bool
abbrev pub show_bool : Bool → String
show_bool true = "true"
show_bool false = "false"

module _ (r : Redis) (db : Querier) (setup : Setup) (ctx : Context) where
  -- The state, and the lines that have been printed.
  pub record Machine : Type 0 where
    pub world : World r db.Conn
    pub printed : List String

  abbrev pub Run : Type 0
  Run = Machine → CommandEnd × Machine

  abbrev pub end_with : Option GoError → Run
  end_with e m = (returned e, m)

  -- `if err != nil { return err }`
  abbrev pub checked : {A : Type 0} → Result A → (A → Run) → Run
  checked (err e) run = end_with (some e)
  checked (ok a) run = run a

  abbrev pub with_flags : FlagSet → List String → (Assigned → Run) → Run
  with_flags flags args run m = elim (parse setup.parse_int64 flags args) [
    | none ↦ (exited, m)
    | some assigned ↦ run assigned m
  ]

  -- A required text, or number.
  abbrev pub required : String → String → Run → Run
  required name value run =
      if str_eq value "" then end_with (some (failed (name <> " is required"))) else run

  abbrev pub required_id : ℕ → Run → Run
  required_id id run = if id == 0 then end_with (some (failed "url-id is required")) else run

  abbrev pub on_world : {A : Type 0} → Result A × World r db.Conn → (A → Run) → Run
  on_world (a, w) run m = checked a run (record m { world = w })

  abbrev pub print_all : List String → Run → Run
  print_all lines run m = run (record m { printed = m.printed ++ lines })

  abbrev pub run_op : {A : Type 0} → M (World r db.Conn) A → (A → Run) → Run
  run_op op run m = on_world (op m.world) run m

  unfoldable pub create_url : List String → Run
  unfolding parse string_value validate Manager.create_url
  create_url args = with_flags (("url", string_var) ∷ []) args λ assigned.
      let url = string_value "url" "" assigned in
      let p : UrlPayload = record { url = url; retries = 0 } in
      required "url" url (
        checked setup.redis λ _. checked setup.db λ _.
          checked (validate setup.parse_url p)
            λ _. run_op (Manager.create_url r db ctx p) λ _. end_with none)

  unfoldable pub create_urls_from_playlist : List String → Run
  unfolding parse string_value create_urls_from_youtube
  create_urls_from_playlist args = with_flags (("playlist", string_var) ∷ []) args λ assigned.
      let playlist = string_value "playlist" "" assigned in
      required "playlist" playlist (
        checked setup.redis λ _. checked setup.db λ _.
          run_op (create_urls_from_youtube r db ctx (setup.videos playlist)) λ _. end_with none)

  unfoldable pub get_oembed : List String → Run
  unfolding parse string_value
  get_oembed args = with_flags (("url", string_var) ∷ []) args λ assigned.
      let url = string_value "url" "" assigned in
      required "url" url (checked (setup.oembed url) λ text. print_all (text ∷ []) (end_with none))

  -- The loop over the events of youtube-dl.
  abbrev pub show_events : List YoutubedlEvent → Run
  show_events [] = end_with none
  show_events (YoutubedlEvent.log line ∷ events) = print_all (line ∷ []) (show_events events)
  show_events (YoutubedlEvent.failure e ∷ events) = end_with (some e)
  show_events (YoutubedlEvent.success path ∷ events) =
      print_all (("downloaded url to " <> path) ∷ []) (show_events events)

  unfoldable pub download_url : List String → Run
  unfolding parse string_value
  download_url args = with_flags (("url", string_var) ∷ []) args λ assigned.
      let url = string_value "url" "" assigned in
      required "url" url (show_events (setup.stream url))

  -- The limit is parsed and not used.
  unfoldable pub list_logs : List String → Run
  unfolding parse int64_value Manager.list_logs
  list_logs args =
      with_flags (("url-id", int64_var) ∷ ("cursor", int64_var) ∷ ("limit", int64_var) ∷ []) args
        λ assigned.
          let id = int64_value setup.parse_int64 "url-id" 0 assigned in
          let cursor = int64_value setup.parse_int64 "cursor" 0 assigned in
          required_id id (
            checked setup.db λ _.
              run_op (Manager.list_logs r db ctx id (record { cursor = cursor }))
                λ logs. print_all (map setup.show_log logs) (end_with none))

  unfoldable pub list_urls : List String → Run
  unfolding parse int64_value Manager.list_urls
  list_urls args = with_flags (("cursor", int64_var) ∷ ("limit", int64_var) ∷ []) args λ assigned.
      let q : UrlsQuery = record {
        cursor = int64_value setup.parse_int64 "cursor" 0 assigned;
        limit = int64_value setup.parse_int64 "limit" 10 assigned;
        status = none;
        q = "";
      } in
      checked setup.db λ _.
        run_op (Manager.list_urls r db ctx q)
          λ urls. print_all (map setup.show_url urls) (end_with none)

  unfoldable pub retry_next : List String → Run
  unfolding retry_next_download_url
  retry_next args = checked setup.redis λ _.
      checked setup.db
        λ _. run_op (retry_next_download_url r db setup.unmarshal ctx) λ _. end_with none

  unfoldable pub should_retry_url : List String → Run
  unfolding parse int64_value Store.get_url should_retry
  should_retry_url args = with_flags (("url-id", int64_var) ∷ []) args λ assigned.
      let id = int64_value setup.parse_int64 "url-id" 0 assigned in
      required_id id (
        checked setup.db λ _.
          run_op (on_store r db (Store.get_url db ctx id))
            λ url. print_all (url.url ∷ show_bool (should_retry url) ∷ []) (end_with none))
