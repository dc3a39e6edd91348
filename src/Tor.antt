-- ===== src/Tor.antt =====
-- api/tor/tor.go: the stream of events of a tor process.
use youtube_ar.Base.{
  Bool, String, ◌<>◌, List, [], ◌∷◌, ◌++◌, ok, err, GoError, codes, contains_text, if◌then◌else◌,
  Result,
}
use youtube_ar.Process.{Process, or_fail}

pub data TorEvent : Type 0 where
  log : String → TorEvent
  failure : GoError → TorEvent
  ready : String → TorEvent

abbrev pub random_port : String
random_port = "9051"

abbrev pub torrc : String → String → String
torrc dir port = "DataDirectory " <> (dir <> ("\nSocksPort " <> port))

unfoldable pub is_bootstrapped : String → Bool
unfolding contains_text
is_bootstrapped line = contains_text (codes line) (codes "Bootstrapped 100%")

-- What the readers send for one line.
unfoldable pub line_events : String → List TorEvent
unfolding is_bootstrapped
line_events line =
    if is_bootstrapped line
    then ready ("socks5://localhost:" <> random_port) ∷ log line ∷ []
    else log line ∷ []

unfoldable pub output_events : List String → List TorEvent
unfolding line_events
output_events [] = []
output_events (line ∷ more) = line_events line ++ output_events more

unfoldable pub wait_events : Result (Unit {0}) → List TorEvent
wait_events (ok _) = []
wait_events (err e) = failure e ∷ []

unfoldable pub start : Process → List TorEvent
unfolding output_events wait_events
start p = or_fail failure p.temp_dir λ dir. or_fail failure p.stderr_pipe λ _.
    or_fail failure p.stdout_pipe
      λ _. or_fail failure p.start λ _. output_events p.output ++ wait_events p.wait
