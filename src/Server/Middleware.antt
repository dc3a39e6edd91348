-- ===== src/Server/Middleware.antt =====
-- api/server/middleware: the CORS header, and the response writer that records the status.
pub mod Status
use youtube_ar.Base.{ℕ, List, [], ◌∷◌, ◌++◌, ◌==◌, if◌then◌else◌}
use youtube_ar.Server.Http.{Write, set_header, write_header, write}

unfoldable pub cors : List Write → List Write
cors writes = set_header "Access-Control-Allow-Origin" "*" ∷ writes

-- `responseWriter`: the code that it records, and the calls that it makes of the writer below.
pub record ResponseWriter : Type 0 where
  pub code : ℕ
  pub calls : List Write

-- `WriteHeader`
abbrev pub on_write_header : ℕ → ResponseWriter → ResponseWriter
on_write_header code rw = record {
  code = if rw.code == 0 then code else rw.code;
  calls = rw.calls ++ write_header code ∷ [];
}

abbrev pub forward : Write → ResponseWriter → ResponseWriter
forward call rw = record rw { calls = rw.calls ++ call ∷ [] }

-- `Write`, `WriteHeader`, and the methods of the writer below.
unfoldable pub on_write : Write → ResponseWriter → ResponseWriter
on_write (write p) rw = forward (write p) (if rw.code == 0 then on_write_header 200 rw else rw)
on_write (write_header code) rw = on_write_header code rw
on_write (set_header k v) rw = forward (set_header k v) rw

unfoldable pub on_writes : List Write → ResponseWriter → ResponseWriter
unfolding on_write
on_writes [] rw = rw
on_writes (call ∷ calls) rw = on_writes calls (on_write call rw)

-- What a handler's calls leave in a new writer: `Log` logs its code.
unfoldable pub logged : List Write → ResponseWriter
unfolding on_writes
logged calls = on_writes calls (record { code = 0; calls = [] })
