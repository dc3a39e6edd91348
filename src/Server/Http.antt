-- ===== src/Server/Http.antt =====
-- HTTP as far as the server uses it: status codes, requests and what a handler writes.
use youtube_ar.Base.{ℕ, String, ◌<>◌, List, [], ◌∷◌, ◌==◌, if◌then◌else◌}

pub data Method : Type 0 where
  get post delete options : Method
  other : String → Method

-- The calls of an http.ResponseWriter. Each is one constructor.
pub data Write : Type 0 where
  set_header : String → String → Write
  write_header : ℕ → Write
  write : String → Write

-- http.StatusText, of the codes that the program uses.
abbrev pub status_text : ℕ → String
status_text code =
    if code == 200
    then "OK"
    else if code == 201
    then "Created"
    else if code == 204
    then "No Content"
    else if code == 400
    then "Bad Request"
    else if code == 404
    then "Not Found"
    else if code == 405
    then "Method Not Allowed"
    else if code == 500
    then "Internal Server Error"
    else ""

-- http.Error
abbrev pub http_error : String → ℕ → List Write
http_error text code =
    set_header "Content-Type" "text/plain; charset=utf-8"
    ∷ set_header "X-Content-Type-Options" "nosniff"
    ∷ write_header code
    ∷ write (text <> "\n")
    ∷ []
