-- ===== src/Log/Http.antt =====
-- api/log/http/http.go: the transport that logs every round trip.
use youtube_ar.Base.{
  ℕ, ◌/◌, String, ◌<>◌, List, [], ◌∷◌, ◌++◌, Bool, true, false, ◌||◌, ◌==◌, if◌then◌else◌, Result,
  ok, err, GoError, error_text, Option, none, some, ◌≡◌, refl, Bool-cases, Result-cases, inl, inr,
  ◌≢◌,
}
use youtube_ar.Log.{Field, Entry, string, int}

pub record HttpRequest : Type 0 where
  pub hostname : String
  pub method : String
  pub path : String

-- A response's body: what reading the rest of it gives, and whether closing it ends the reading. Go's
-- documents say that a body of net/http that is closed cannot be read.
pub record ResponseBody : Type 0 where
  pub content : Result String
  pub closes : Bool

pub record HttpResponse : Type 0 where
  pub status_code : ℕ
  pub body : ResponseBody

-- What reading leaves: nothing more, or the error again.
abbrev drained : Result String → Result String
drained (ok text) = ok ""
drained (err e) = err e

-- ioutil.ReadAll
abbrev pub read_all : ResponseBody → Result String × ResponseBody
read_all b = (b.content, record b { content = drained b.content })

-- ioutil.NopCloser(bytes.NewBuffer(text))
abbrev nop_closer : String → ResponseBody
nop_closer text = record { content = ok text; closes = false }

-- The method Close of a body.
abbrev close : ResponseBody → ResponseBody
close b = if b.closes then record b { content = err (GoError.failed "read on closed body") } else b

-- What a round trip does: it returns a response and an error, either of which may be nil, or it panics.
pub data Trip : Type 0 where
  returned : Option HttpResponse → Option GoError → Trip
  panicked : Trip

abbrev pub is_error_status : ℕ → Bool
is_error_status status = status / 100 == 4 || status / 100 == 5

abbrev pub trip_fields : String → HttpRequest → List Field
trip_fields duration req =
    string "duration" duration
    ∷ string "host" req.hostname
    ∷ string "http_method" req.method
    ∷ string "http_path" req.path
    ∷ []

-- `tr.log.Log(ctx, rterr.Error(), fields...)`: the method call on an error that is nil panics.
abbrev log_failure : List Field → Option GoError → Trip → Trip × List Entry
log_failure fields none trip = (panicked, [])
log_failure fields (some e) trip = (trip, record { msg = error_text e; fields = fields } ∷ [])

-- The last lines of the deferred function.
abbrev log_response : HttpRequest → List Field → ℕ → Trip → Trip × List Entry
log_response req fields status trip = (
  trip,
  record { msg = req.method <> (" " <> req.path); fields = fields ++ int "http_status" status ∷ [] }
      ∷ [],
)

-- The body that the response has at the end is closed.
abbrev closing : HttpResponse → Option GoError → Trip
closing resp rterr = returned (some (record resp { body = close resp.body })) rterr

-- The body of an error response, as ReadAll leaves it, is logged and put back.
abbrev log_error_response :
    HttpRequest
    → List Field
    → HttpResponse
    → Option GoError
    → Result String × ResponseBody
    → Trip × List Entry
log_error_response req fields resp rterr (err e, body) =
    log_failure fields rterr (closing (record resp { body = body }) rterr)
log_error_response req fields resp rterr (ok text, body) =
    log_response req (fields ++ string "response_body" text ∷ []) resp.status_code
      (closing (record resp { body = nop_closer text }) rterr)

-- RoundTrip, from what the transport that it wraps returns; with what it logs.
unfoldable pub round_trip :
    (duration : String)
    → HttpRequest
    → Option HttpResponse
    → (rterr : Option GoError) → Trip × List Entry
round_trip duration req resp (some e) =
    log_failure (trip_fields duration req) (some e) (returned resp (some e))
round_trip duration req none none = (panicked, [])
round_trip duration req (some resp) none =
    if is_error_status resp.status_code
    then log_error_response req (trip_fields duration req) resp none (read_all resp.body)
    else log_response req (trip_fields duration req) resp.status_code (returned (some resp) none)

-- A response with a status 4xx or 5xx whose body cannot be read.
abbrev pub IsUnreadable : HttpResponse → Type 0
IsUnreadable resp =
    (is_error_status resp.status_code ≡ true) × ((e : GoError) × ((read_all resp.body).0 ≡ err e))

-- The caller gets a response without an error, with the status of another, and whose body gives the
-- same when it is read.
abbrev pub ReadsAs : HttpResponse → Trip → Type 0
ReadsAs resp (returned (some resp') none) =
    (resp'.status_code ≡ resp.status_code) × ((read_all resp'.body).0 ≡ (read_all resp.body).0)
ReadsAs resp _ = ⊥

error_response-ReadsAs :
    (req : HttpRequest) (fields : List Field) (resp : HttpResponse)
    → ((e : GoError) → (read_all resp.body).0 ≢ err e)
    → ReadsAs resp (log_error_response req fields resp none (read_all resp.body)).0
error_response-ReadsAs req fields resp h = elim (Result-cases resp.body.content) [
  | inl (text, e) ↦ rw e (refl, refl)
  | inr (x, e) ↦ absurd (h x e)
]

-- A response that the transport returns without an error reaches the caller with its status and with a
-- body that gives the same when it is read, also where the round trip reads it first, unless it has a
-- status 4xx or 5xx and a body that cannot be read. An error of the transport reaches the caller as it
-- is, with the same response.
pub round_trip_transparent :
    (duration : String) (req : HttpRequest) (resp : HttpResponse)
    → ¬ IsUnreadable resp
    → ReadsAs resp (round_trip duration req (some resp) none).0
      × ((other : Option HttpResponse) (e : GoError)
          → (round_trip duration req other (some e)).0 ≡ returned other (some e))
unfolding round_trip
round_trip_transparent duration req resp h = (
  elim (Bool-cases (is_error_status resp.status_code)) [
    | inl bad ↦
        rw bad (error_response-ReadsAs req (trip_fields duration req) resp (λ e k. h (bad, (e, k))))
    | inr fine ↦ rw fine (refl, refl)
  ],
  λ other e. refl,
)

-- Where the transport returns, without an error, a response with a status 4xx or 5xx whose body cannot be
-- read, the round trip calls the method of that nil error: it panics and logs nothing.
pub round_trip_panics :
    (duration : String) (req : HttpRequest) (resp : HttpResponse)
    → IsUnreadable resp
    → round_trip duration req (some resp) none ≡ (panicked, [])
unfolding round_trip
round_trip_panics duration req resp (bad, (e, k)) = rw bad (rw k refl)
