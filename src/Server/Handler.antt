-- ===== src/Server/Handler.antt =====
-- api/server/handler: the endpoints, each over the manager's operation that it is given, as the
-- interfaces of the package ask.
use youtube_ar.Base.{
  ℕ, String, List, [], ◌∷◌, Option, none, some, Result, ok, err, GoError, no_rows, error_text, M,
}
use youtube_ar.Model.{Url, Log}
use youtube_ar.Query.{UrlsQuery, LogsQuery, Param, Validated, parse_urls, parse_logs}
use youtube_ar.Event.{UrlPayload, validate}
use youtube_ar.Resource.{UrlResource, UrlsResource, LogsResource, new_url, new_urls, new_logs}
use youtube_ar.Server.Http.{Write, set_header, write_header, write, status_text}
use youtube_ar.Server.Number.{parse_int}

-- An error of a handler: an `httpError`, with its code and perhaps an error, or any other.
pub data Failure : Type 0 where
  http_error : ℕ → Option GoError → Failure
  plain : GoError → Failure

pub record Response : Type 0 where
  pub body : String
  pub code : ℕ

pub data Reply : Type 0 where
  respond : Response → Reply
  refuse : Failure → Reply

-- `httpError.Error()`
unfoldable pub failure_text : ℕ → Option GoError → String
unfolding error_text
failure_text code none = status_text code
failure_text code (some e) = error_text e

-- An error that is no `httpError` is an internal server error.
unfoldable pub failure_writes : Failure → List Write
unfolding failure_text
failure_writes (http_error code e) = write_header code ∷ write (failure_text code e) ∷ []
failure_writes (plain e) = write_header 500 ∷ write (failure_text 500 (some e)) ∷ []

unfoldable pub serve_http : Reply → List Write
unfolding failure_writes
serve_http (respond r) =
    set_header "Content-Type" "application/json" ∷ write_header r.code ∷ write r.body ∷ []
serve_http (refuse f) = failure_writes f

-- The resources that are printed as JSON.
pub data Body : Type 0 where
  url_body : UrlResource → Body
  urls_body : UrlsResource → Body
  logs_body : LogsResource → Body

abbrev pub not_found : Reply
not_found = refuse (http_error 404 none)

abbrev pub bad_request : GoError → Reply
bad_request e = refuse (http_error 400 (some e))

-- `match[1]`, of a match that has it.
abbrev pub group : List (List ℕ) → List ℕ
group (_ ∷ g ∷ _) = g
group _ = []

-- `S` is the state that the manager works on; `marshal` is json.Marshal; `media_url` the serializer.
module _ (marshal : Body → Result String) (media_url : String) where
  -- `json.Marshal(resource)` and the response.
  abbrev pub encoded : ℕ → Body → Reply
  encoded code body = elim (marshal body) [
    | err e ↦ refuse (plain e)
    | ok b ↦ respond (record { body = b; code = code })
  ]

  module _ {S : Type 0} where
    abbrev pub url_reply : ℕ → Result Url × S → Reply × S
    url_reply code (err e, s) = (refuse (plain e), s)
    url_reply code (ok url, s) = (encoded code (url_body (new_url media_url url)), s)

    abbrev pub urls_reply : Result (List Url) × S → Reply × S
    urls_reply (err e, s) = (refuse (plain e), s)
    urls_reply (ok urls, s) = (encoded 200 (urls_body (new_urls media_url urls)), s)

    unfoldable pub list_urls :
        {Values : Type 0}
        → (Values → List Param → Result Validated)
        → (UrlsQuery → M S (List Url))
        → Values
        → S
        → Reply × S
    unfolding parse_urls new_urls
    list_urls query_validate list values s = elim (parse_urls query_validate values) [
      | err e ↦ (bad_request e, s)
      | ok q ↦ urls_reply (list q s)
    ]

    -- `decoded` is the payload that the JSON decoder reads from the request; `parse` is url.Parse.
    unfoldable pub create_url :
        (String → Result (Unit {0})) → (UrlPayload → M S Url) → Result UrlPayload → S → Reply × S
    unfolding validate new_url
    create_url parse create (err e) s = (bad_request e, s)
    create_url parse create (ok payload) s = elim (validate parse payload) [
      | err e ↦ (bad_request e, s)
      | ok _ ↦ url_reply 201 (create payload s)
    ]

    abbrev pub detail_reply : Result Url × S → Reply × S
    detail_reply (err no_rows, s) = (not_found, s)
    detail_reply (a, s) = url_reply 200 (a, s)

    unfoldable pub detail_url : (ℕ → M S Url) → List (List ℕ) → S → Reply × S
    unfolding parse_int new_url
    detail_url get match s = elim (parse_int (group match)) [
      | none ↦ (not_found, s)
      | some id ↦ detail_reply (get id s)
    ]

    abbrev pub deleted_reply : Result (Unit {0}) × S → Reply × S
    deleted_reply (err e, s) = (refuse (plain e), s)
    deleted_reply (ok _, s) = (respond (record { body = ""; code = 204 }), s)

    unfoldable pub delete_url : (ℕ → M S (Unit {0})) → List (List ℕ) → S → Reply × S
    unfolding parse_int
    delete_url delete match s = elim (parse_int (group match)) [
      | none ↦ (not_found, s)
      | some id ↦ deleted_reply (delete id s)
    ]

    unfoldable pub retry_url : (ℕ → M S Url) → List (List ℕ) → S → Reply × S
    unfolding parse_int new_url
    retry_url retry match s = elim (parse_int (group match)) [
      | none ↦ (not_found, s)
      | some id ↦ url_reply 201 (retry id s)
    ]

    abbrev pub logs_reply : ℕ → Result (List Log) × S → Reply × S
    logs_reply cursor (err e, s) = (refuse (plain e), s)
    logs_reply cursor (ok logs, s) = (encoded 200 (logs_body (new_logs logs cursor)), s)

    unfoldable pub list_logs :
        {Values : Type 0}
        → (Values → List Param → Result Validated)
        → (ℕ → LogsQuery → M S (List Log))
        → List (List ℕ)
        → Values
        → S
        → Reply × S
    unfolding parse_int parse_logs new_logs
    list_logs query_validate list match values s = elim (parse_int (group match)) [
      | none ↦ (not_found, s)
      | some id ↦ elim (parse_logs query_validate values) [
        | err e ↦ (bad_request e, s)
        | ok q ↦ logs_reply q.cursor (list id q s)
      ]
    ]
