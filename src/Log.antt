-- ===== src/Log.antt =====
-- api/log/fields.go and api/log/log.go: fields, and the event that a logger prints.
pub mod Logfmt
pub mod Http
pub mod Sql
use youtube_ar.Base.{
  ℕ, String, List, [], ◌∷◌, ◌++◌, map, GoError, error_text, str_eq, if◌then◌else◌, codes,
}
use youtube_ar.Event.Json.{itoa}
use youtube_ar.Log.Logfmt.{Event, marshal}

pub record Field : Type 0 where
  pub key : String
  pub value : String

-- `String`, and `Stringer` of a value by its text.
abbrev pub string : String → String → Field
string key value = record { key = key; value = value }

-- `Int`
abbrev pub int : String → ℕ → Field
int key value = record { key = key; value = itoa value }

-- `Error`
abbrev pub error : String → GoError → Field
error key value = record { key = key; value = error_text value }

-- A call of `Logger.Log`.
pub record Entry : Type 0 where
  pub msg : String
  pub fields : List Field

-- `event[field.key] = field.value`; the event's keys in the order of their first assignment.
abbrev pub assign : Event → Field → Event
assign [] f = (f.key, f.value) ∷ []
assign ((k, v) ∷ event) f = if str_eq k f.key then (k, f.value) ∷ event else (k, v) ∷ assign event f

abbrev pub assign_all : Event → List Field → Event
assign_all event [] = event
assign_all event (f ∷ fields) = assign_all (assign event f) fields

-- The line that `logger.Log` prints.
unfoldable pub line : Entry → List ℕ
unfolding marshal
line e = marshal (assign_all [] (e.fields ++ string "msg" e.msg ∷ [])) ++ 10 ∷ []
