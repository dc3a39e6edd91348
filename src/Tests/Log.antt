-- ===== src/Tests/Log.antt =====
-- The logging transport on concrete round trips.
use youtube_ar.Base.{true, Option, none, some, ok, err, [], GoError, failed, ◌≡◌, refl}
use youtube_ar.Log.Http.{
  HttpRequest, HttpResponse, round_trip, panicked, returned, IsUnreadable, ReadsAs,
  round_trip_transparent, round_trip_panics,
}

abbrev request : HttpRequest
request = record { hostname = "noembed.com"; method = "GET"; path = "/embed" }

-- A response whose body breaks off.
abbrev cut_off : HttpResponse
cut_off = record {
  status_code = 502;
  body = record { content = err (failed "unexpected EOF"); closes = true };
}

abbrev not_found : HttpResponse
not_found = record { status_code = 404; body = record { content = ok "none"; closes = true } }

readable : ¬ IsUnreadable not_found
readable (bad, (e, h)) = cc

round_trip_transparent_example :
    ReadsAs not_found (round_trip "1ms" request (some not_found) none).0
    × ((other : Option HttpResponse) (e : GoError)
        → (round_trip "1ms" request other (some e)).0 ≡ returned other (some e))
round_trip_transparent_example = round_trip_transparent "1ms" request not_found readable

round_trip_panics_example : round_trip "1ms" request (some cut_off) none ≡ (panicked, [])
round_trip_panics_example =
    round_trip_panics "1ms" request cut_off (refl, (failed "unexpected EOF", refl))
