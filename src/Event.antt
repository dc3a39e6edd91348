-- ===== src/Event.antt =====
-- api/event/event.go and api/payload/payload.go, and the text that json.Marshal gives of an event.
pub mod Json
pub mod Distinct
mod Tests
use youtube_ar.Base.{ℕ, String, ◌<>◌, Result}
use youtube_ar.Event.Json.{itoa, quote}

pub record UrlEvent : Type 0 where
  pub id : ℕ
  pub url : String

-- json.Marshal of an event. It gives no error.
unfoldable pub marshal : UrlEvent → String
unfolding itoa quote
marshal e = "{\"id\":" <> (itoa e.id <> (",\"url\":" <> (quote e.url <> "}")))

pub record UrlPayload : Type 0 where
  pub url : String
  pub retries : ℕ

-- `parse` is url.Parse, by its error.
unfoldable pub validate : (String → Result (Unit {0})) → UrlPayload → Result (Unit {0})
validate parse p = parse p.url
