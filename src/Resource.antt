-- ===== src/Resource.antt =====
-- api/resource/resource.go: what the API shows of a row.
use youtube_ar.Base.{
  ℕ, String, ◌<>◌, List, map, Option, none, some, ◌+◌, ◌%◌, length, get_last?, if◌then◌else◌,
}
use youtube_ar.Model.{Url, Log}

pub record UrlResource : Type 0 where
  pub id : ℕ
  pub url : String
  pub created_at : ℕ
  pub updated_at : ℕ
  pub status : String
  pub error : String
  pub file : String
  pub oembed : Option String

pub record UrlsResource : Type 0 where
  pub urls : List UrlResource
  pub next_cursor : ℕ

pub record LogResource : Type 0 where
  pub log : String

pub record LogsResource : Type 0 where
  pub logs : List LogResource
  pub next_cursor : ℕ

-- A serializer is its media URL.
unfoldable pub new_url : (media_url : String) → Url → UrlResource
new_url media_url url = record {
  id = url.id;
  url = url.url;
  created_at = url.created_at;
  updated_at = url.updated_at;
  status = url.status;
  error = if url.error.valid then url.error.string else "";
  file = if url.file.valid then media_url <> url.file.string else "";
  oembed = url.oembed;
}

-- The id of the last url, or the zero value.
abbrev pub next_cursor : List Url → ℕ
next_cursor urls = elim (get_last? urls) [ none ↦ 0 | some url ↦ url.id ]

unfoldable pub new_urls : (media_url : String) → List Url → UrlsResource
unfolding new_url
new_urls media_url urls = record {
  urls = map (new_url media_url) urls;
  next_cursor = next_cursor urls;
}

unfoldable pub new_log : Log → LogResource
new_log log = record { log = log.log }

-- The addition of int64 wraps.
unfoldable pub new_logs : List Log → ℕ → LogsResource
unfolding new_log
new_logs logs cursor = record {
  logs = map new_log logs;
  next_cursor = (cursor + length logs) % 18446744073709551616;
}
