-- ===== src/Server/Api/Replies.antt =====
-- What the handlers reply, and what the middleware lets through of it.

use youtube_ar.Base.{
  ℕ, String, List, [], ◌∷◌, Result, ok, err, GoError, no_rows, some, ◌≡◌, ◌≢◌, refl, ap, redis_nil,
  error_text, canceled, deadline_exceeded, failed,
}
use youtube_ar.Model.{Url}
use youtube_ar.Event.{UrlPayload}
use youtube_ar.Resource.{new_url}
use youtube_ar.Server.Http.{Write, set_header, write_header, write}
use youtube_ar.Server.Handler as Handler
use youtube_ar.Server.Handler.{
  Body, url_body, Reply, respond, refuse, plain, serve_http, detail_reply,
}
use youtube_ar.Server.Middleware.{cors, logged}
use youtube_ar.Server.Number.{parse_int}

-- What the server writes for a resource.
abbrev pub json_writes : ℕ → String → List Write
json_writes code text =
    set_header "Access-Control-Allow-Origin" "*"
    ∷ set_header "Content-Type" "application/json"
    ∷ write_header code
    ∷ write text
    ∷ []

-- What the server writes for an error of the database.
abbrev pub error_writes : GoError → List Write
error_writes e =
    set_header "Access-Control-Allow-Origin" "*" ∷ write_header 500 ∷ write (error_text e) ∷ []

encoded_ok :
    (marshal : Body → Result String) (media_url : String) (code : ℕ) (body : Body) (text : String)
    → marshal body ≡ ok text
    → Handler.encoded marshal media_url code body ≡ respond (record { body = text; code = code })
encoded_ok marshal media_url code body text h = rw (Handler.encoded, h) refl

module _ {S : Type 0} (marshal : Body → Result String) (media_url : String) where
  pub created_reply :
      (parse : String → Result (Unit {0})) (create : UrlPayload → S → Result Url × S)
      (p : UrlPayload) (v : Url) (text : String) (s : S)
      → parse p.url ≡ ok tt
      → (create p s).0 ≡ ok v
      → marshal (url_body (new_url media_url v)) ≡ ok text
      → Handler.create_url marshal media_url parse create (ok p) s
        ≡ (respond (record { body = text; code = 201 }), (create p s).1)
  unfolding Handler.create_url
  created_reply parse create p v text s a b c =
      rw (Handler.create_url, a, b)
        (ap (λ x. (x, (create p s).1))
          (encoded_ok marshal media_url 201 (url_body (new_url media_url v)) text c))

  pub found_reply :
      (find : ℕ → S → Result Url × S) (match digits : List ℕ) (id : ℕ) (v : Url) (text : String)
      (s : S)
      → parse_int digits ≡ some id
      → (find id s).0 ≡ ok v
      → marshal (url_body (new_url media_url v)) ≡ ok text
      → (Handler.detail_url marshal media_url find (match ∷ digits ∷ []) s).0
        ≡ respond (record { body = text; code = 200 })
  unfolding Handler.detail_url
  found_reply find match digits id v text s a b c =
      rw (Handler.detail_url, a, b)
        (encoded_ok marshal media_url 200 (url_body (new_url media_url v)) text c)

  pub failed_reply :
      (find : ℕ → S → Result Url × S) (match digits : List ℕ) (id : ℕ) (e : GoError) (s : S)
      → parse_int digits ≡ some id
      → (find id s).0 ≡ err e
      → e ≢ no_rows
      → (Handler.detail_url marshal media_url find (match ∷ digits ∷ []) s).0 ≡ refuse (plain e)
  unfolding Handler.detail_url
  failed_reply find match digits id redis_nil s a b n = rw (Handler.detail_url, a, b) refl
  failed_reply find match digits id no_rows s a b n = absurd (n refl)
  failed_reply find match digits id canceled s a b n = rw (Handler.detail_url, a, b) refl
  failed_reply find match digits id deadline_exceeded s a b n = rw (Handler.detail_url, a, b) refl
  failed_reply find match digits id (failed text) s a b n = rw (Handler.detail_url, a, b) refl

pub sent_created :
    (text : String)
    → cors (logged (serve_http (respond (record { body = text; code = 201 })))).calls
      ≡ json_writes 201 text
unfolding logged serve_http cors
sent_created text = refl

pub sent_found :
    (text : String)
    → cors (logged (serve_http (respond (record { body = text; code = 200 })))).calls
      ≡ json_writes 200 text
unfolding logged serve_http cors
sent_found text = refl

pub sent_failed :
    (e : GoError) → cors (logged (serve_http (refuse (plain e)))).calls ≡ error_writes e
unfolding logged serve_http cors
sent_failed e = refl
