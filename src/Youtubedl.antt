-- ===== src/Youtubedl.antt =====
-- api/youtubedl/youtubedl.go: the stream of events of a youtube-dl process.
use youtube_ar.Base.{String, ◌<>◌, List, [], ◌∷◌, ◌++◌, map, Result, GoError, failed, length}
use youtube_ar.Event.Json.{itoa}
use youtube_ar.Process.{Process, or_fail}

pub data YoutubedlEvent : Type 0 where
  log : String → YoutubedlEvent
  failure : GoError → YoutubedlEvent
  success : String → YoutubedlEvent

-- `filepath.Join(dir, name)`, of a directory without a trailing slash and a name of an entry.
abbrev pub join_path : String → String → String
join_path dir name = dir <> ("/" <> name)

-- The directory must hold one file.
unfoldable pub only_file : String → List String → YoutubedlEvent
unfolding itoa
only_file dir (name ∷ []) = success (join_path dir name)
only_file dir names =
    failure (failed ("expected 1 file in " <> (dir <> (", got " <> itoa (length names)))))

-- `read_dir` is ioutil.ReadDir after the process has ended, by the entries' names.
unfoldable pub download : Process → (read_dir : Result (List String)) → List YoutubedlEvent
unfolding only_file
download p read_dir = or_fail failure p.temp_dir λ dir. or_fail failure p.stderr_pipe λ _.
    or_fail failure p.stdout_pipe λ _. or_fail failure p.start λ _.
      map log p.output
      ++ or_fail failure p.wait λ _. or_fail failure read_dir λ names. only_file dir names ∷ []
