-- ===== src/Process.antt =====
-- What the operating system answers to api/tor/tor.go and api/youtubedl/youtubedl.go, which run a
-- child process each.
use youtube_ar.Base.{String, List, [], ◌∷◌, Result, ok, err, GoError}

-- `output` has the lines of both pipes, in the order in which the two readers send them.
pub record Process : Type 0 where
  pub temp_dir : Result String
  pub stderr_pipe : Result (Unit {0})
  pub stdout_pipe : Result (Unit {0})
  pub start : Result (Unit {0})
  pub output : List String
  pub wait : Result (Unit {0})

-- `if err := …; err != nil { stream <- Event{Type: Failure, Err: err}; return }`
abbrev pub or_fail {ℓ} :
    {E : Type 0} {A : Type ℓ} → (GoError → E) → Result A → (A → List E) → List E
or_fail failure (err e) k = failure e ∷ []
or_fail failure (ok a) k = k a
