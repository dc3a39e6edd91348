-- ===== src/Main.antt =====
-- api/main.go, and what api/new.go, api/worker.go and api/server.go do of their own: the choice of a
-- command, the clients that it is given, and how the process ends. Package errgroup, the listeners and
-- the signals are not part of the repository: the order in which the goroutines end is a parameter.
use youtube_ar.Base.{
  ℕ, String, ◌<>◌, List, [], ◌∷◌, map, Option, none, some, Result, ok, err, GoError, error_text,
  codes, str_eq, if◌then◌else◌,
}
use youtube_ar.Log.Logfmt.{less}
use youtube_ar.Cmd.{CommandEnd, returned, exited}

-- `if v := os.Getenv(name); v == "" { v = missing }`
abbrev pub getenv_or : (getenv : String → String) → String → String → String
getenv_or getenv name missing = if str_eq (getenv name) "" then missing else getenv name

-- newDB and newRedis: `connect` makes a client of an address, `ping` asks the server.
module _ {C : Type 0} (getenv : String → String) (connect : String → Result C)
    (ping : C → Result (Unit {0})) where
  abbrev pinged : C → Result (Unit {0}) → Result C
  pinged c (ok _) = ok c
  pinged c (err e) = err e

  abbrev opened_client : Result C → Result C
  opened_client (err e) = err e
  opened_client (ok c) = pinged c (ping c)

  unfoldable pub new_db : Result C
  new_db = opened_client (connect (getenv_or getenv "DATABASE_URL" "sslmode=disable"))

  unfoldable pub new_redis : Result C
  new_redis = opened_client (connect (getenv_or getenv "REDIS_URL" "redis://"))

-- What a server's select takes first: the context, or the error that Serve returns.
pub data ServeEnd : Type 0 where
  ctx_done : (shutdown : Result (Unit {0})) → ServeEnd
  serve_error : GoError → ServeEnd

-- The end of runServer, runPprofServer and runPrometheusServer, with the lines that are logged; `listen`
-- is net.Listen at the address.
abbrev pub serve_end : ServeEnd → Option GoError × List String
serve_end (ctx_done (ok _)) = (none, [])
serve_end (ctx_done (err e)) = (none, error_text e ∷ [])
serve_end (serve_error e) = (some e, [])

unfoldable pub run_listener :
    (listen : String → Result (Unit {0})) → String → ServeEnd → Option GoError × List String
run_listener listen address ends = elim (listen address) [
  | err e ↦ (some e, [])
  | ok _ ↦ serve_end ends
]

abbrev pub server_address : (getenv : String → String) → String
server_address getenv = ":" <> getenv_or getenv "PORT" "8080"

abbrev pub local_address : String → String
local_address port = "localhost:" <> port

-- `if err != nil { return err }`, before a server or a worker runs.
abbrev pub after_clients :
    {A : Type 0} → Result A → Option GoError × List String → Option GoError × List String
after_clients (err e) more = (some e, [])
after_clients (ok _) more = more

unfoldable pub run_server :
    {R D : Type 0}
    → Result R
    → Result D
    → (getenv : String → String) → (listen : String → Result (Unit {0})) → ServeEnd
    → Option GoError × List String
unfolding run_listener
run_server redis db getenv listen ends =
    after_clients redis (after_clients db (run_listener listen (server_address getenv) ends))

unfoldable pub run_pprof_server :
    (listen : String → Result (Unit {0}))
    → (port : String) → ServeEnd
    → Option GoError × List String
unfolding run_listener
run_pprof_server listen port ends = run_listener listen (local_address port) ends

unfoldable pub run_prometheus_server :
    (listen : String → Result (Unit {0}))
    → (port : String) → ServeEnd
    → Option GoError × List String
unfolding run_listener
run_prometheus_server listen port ends = run_listener listen (local_address port) ends

-- `listened` is the error that Listen returns.
unfoldable pub run_worker :
    {R S D : Type 0}
    → Result R
    → Result S
    → Result D
    → (listened : GoError) → Option GoError × List String
run_worker redis storage db listened =
    after_clients redis (after_clients storage (after_clients db (some listened, [])))

pub data Cmd : Type 0 where
  create_url_cmd create_urls_from_playlist_cmd download_url_cmd get_oembed_cmd list_logs_cmd
        list_urls_cmd :
      Cmd
  retry_next_download_url_cmd should_retry_cmd server_cmd worker_cmd : Cmd

abbrev pub cmds : List (String × Cmd)
cmds =
    ("create-url", create_url_cmd)
    ∷ ("create-urls-from-playlist", create_urls_from_playlist_cmd)
    ∷ ("download-url", download_url_cmd)
    ∷ ("get-oembed", get_oembed_cmd)
    ∷ ("list-logs", list_logs_cmd)
    ∷ ("list-urls", list_urls_cmd)
    ∷ ("retry-next-download-url", retry_next_download_url_cmd)
    ∷ ("should-retry", should_retry_cmd)
    ∷ ("server", server_cmd)
    ∷ ("worker", worker_cmd)
    ∷ []

abbrev pub find_cmd : String → List (String × Cmd) → Option Cmd
find_cmd name [] = none
find_cmd name ((n, c) ∷ more) = if str_eq n name then some c else find_cmd name more

-- sort.Strings
abbrev insert_name : String → List String → List String
insert_name s [] = s ∷ []
insert_name s (t ∷ l) = if less (codes t) (codes s) then t ∷ insert_name s l else s ∷ t ∷ l

abbrev pub sort_names : List String → List String
sort_names [] = []
sort_names (s ∷ l) = insert_name s (sort_names l)

-- strings.Join(names, "|")
abbrev pub join_names : List String → String
join_names [] = ""
join_names (s ∷ []) = s
join_names (s ∷ t ∷ more) = s <> ("|" <> join_names (t ∷ more))

abbrev pub name_of : String × Cmd → String
name_of (name, c) = name

-- os.Exit and what is printed before it.
pub record Exit : Type 0 where
  pub status : ℕ
  pub printed : List String

-- The command of a command line and its arguments, or the end of the process.
pub data Chosen : Type 0 where
  runs : Cmd → List String → Chosen
  stops : Exit → Chosen

unfoldable pub choose : (program : String) → List String → Chosen
choose program [] = runs server_cmd []
choose program (name ∷ args) = elim (find_cmd name cmds) [
  | some c ↦ runs c args
  | none ↦ stops (record {
    status = 2;
    printed =
        ("unknown cmd " <> name)
        ∷ ("usage: " <> (program <> (" [" <> (join_names (sort_names (map name_of cmds)) <> "]"))))
        ∷ [];
  })
]

-- A goroutine's result, which is never nil.
pub data End : Type 0 where
  sentinel : End
  failure : GoError → End

-- `if err := …; err != nil { return err }; return sentinel`
abbrev pub end_of : Option GoError → End
end_of none = sentinel
end_of (some e) = failure e

-- The goroutine of a command: where the package flag ends the process, with its status, there is none.
abbrev pub cmd_end : CommandEnd → Option End
cmd_end (returned e) = some (end_of e)
cmd_end exited = none

-- The goroutine that waits for a signal or for the context.
abbrev pub signal_end : End
signal_end = sentinel

-- g.Wait returns the first error of the goroutines, in the order in which they end.
abbrev pub group_wait : List End → Option End
group_wait [] = none
group_wait (e ∷ ends) = some e

unfoldable pub exit_of : Option End → Exit
exit_of none = record { status = 0; printed = [] }
exit_of (some sentinel) = record { status = 0; printed = [] }
exit_of (some (failure e)) = record { status = 1; printed = error_text e ∷ [] }

-- The optional goroutines, where the environment names a port for them.
abbrev pub optional : (getenv : String → String) → String → (String → Option GoError) → List End
optional getenv name run = if str_eq (getenv name) "" then [] else end_of (run (getenv name)) ∷ []

-- main: `ends` are the results of the goroutines of a command, in the order in which they end.
unfoldable pub run_main : (program : String) → List String → (Cmd → List String → List End) → Exit
unfolding choose exit_of
run_main program args ends = elim (choose program args) [
  | stops exit ↦ exit
  | runs c rest ↦ exit_of (group_wait (ends c rest))
]
