-- ===== src/Downloader.antt =====
-- api/downloader/downloader.go: a download, from the events of the two child processes.
pub mod Ending
use youtube_ar.Base.{String, List, [], ◌∷◌, Option, none, some, Result, ok, err, GoError, Context}
use youtube_ar.Model.{Url}
use youtube_ar.Sql.{Querier}
use youtube_ar.Store
use youtube_ar.Tor.{TorEvent}
use youtube_ar.Youtubedl.{YoutubedlEvent}

-- What reaches the program once both processes run, in the order in which it arrives.
pub data Event : Type 0 where
  from_tor : TorEvent → Event
  from_youtubedl : YoutubedlEvent → Event

-- The local files, as far as a download uses them: filepath.Dir and filepath.Base, os.Open, and the
-- interface Storage.
pub record Files (File : Type 0) : Type 0 where
  pub dir : String → String
  pub base : String → String
  pub open_file : String → Result File
  pub save : String → File → Result (Unit {0})

-- A download's end: its result, and the directories that it has asked to remove.
pub record Ended : Type 0 where
  pub result : Result String
  pub removed : List String

-- The variables `path` and `err` of the second loop.
pub record Progress : Type 0 where
  pub path : String
  pub error : Option GoError

module _ (db : Querier) (ctx : Context) (url : Url) where
  -- AppendLog; an error is only logged.
  unfoldable pub append : String → db.Conn → db.Conn
  unfolding Store.append_log
  append text c = (Store.append_log db ctx url.id (record { log = text }) c).1

  -- The goroutine over tor's events, up to the first that it sends on `torready`. `none` means that
  -- tor's stream is closed before.
  unfoldable pub await_tor : List TorEvent → db.Conn → Option TorEvent × db.Conn
  unfolding append
  await_tor [] c = (none, c)
  await_tor (TorEvent.log text ∷ more) c = await_tor more (append text c)
  await_tor (TorEvent.failure e ∷ more) c = (some (TorEvent.failure e), c)
  await_tor (TorEvent.ready proxy ∷ more) c = (some (TorEvent.ready proxy), c)

  -- One event after `torready`: the goroutine only stores logs, and the loop over youtube-dl's events
  -- keeps the last error and the last path.
  unfoldable pub on_event : Event → Progress × db.Conn → Progress × db.Conn
  unfolding append
  on_event (from_tor (TorEvent.log text)) (p, c) = (p, append text c)
  on_event (from_tor _) (p, c) = (p, c)
  on_event (from_youtubedl (YoutubedlEvent.log text)) (p, c) = (p, append text c)
  on_event (from_youtubedl (YoutubedlEvent.failure e)) (p, c) = (record p { error = some e }, c)
  on_event (from_youtubedl (YoutubedlEvent.success path)) (p, c) = (record p { path = path }, c)

  unfoldable pub drain : List Event → Progress × db.Conn → Progress × db.Conn
  unfolding on_event
  drain [] s = s
  drain (e ∷ more) s = drain more (on_event e s)

  module _ {File : Type 0} (files : Files File) where
    -- Opening and saving the file; its name is the result.
    unfoldable pub store_file : String → Result String
    store_file path = elim (files.open_file path) [
      | err e ↦ err e
      | ok f ↦ elim (files.save (files.base path) f) [ err e ↦ err e | ok _ ↦ ok (files.base path) ]
    ]

    unfoldable pub finish : Progress → Ended
    unfolding store_file
    finish p = record {
      result = elim p.error [ some e ↦ err e | none ↦ store_file p.path ];
      removed = files.dir p.path ∷ [];
    }

    abbrev pub start_progress : Progress
    start_progress = record { path = ""; error = none }

    -- After the value received from `torready`; `during` gives the events under a proxy.
    abbrev pub signalled :
        (during : String → List Event) → Option TorEvent × db.Conn → Option Ended × db.Conn
    signalled during (none, c) = (none, c)
    signalled during (some (TorEvent.failure e), c) =
        (some (record { result = err e; removed = [] }), c)
    signalled during (some (TorEvent.ready proxy), c) =
        let (p, c') = drain (during proxy) (start_progress, c) in (some (finish p), c')
    signalled during (some (TorEvent.log text), c) =
        let (p, c') = drain (during "") (start_progress, c) in (some (finish p), c')

    -- `none` is a call that never returns: it waits on `torready` for ever.
    unfoldable pub download_url :
        List TorEvent → (during : String → List Event) → db.Conn → Option Ended × db.Conn
    unfolding await_tor drain finish
    download_url tor during c = signalled during (await_tor tor c)
