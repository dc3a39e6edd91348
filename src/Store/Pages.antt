-- ===== src/Store/Pages.antt =====
-- Listings of urls, page by page, as a client asks for them with the cursor of the page before.
pub mod Order
pub mod Query
pub mod Complete
pub mod Search
use youtube_ar.Base.{
  ℕ, zero, suc, String, List, [], ◌∷◌, ◌++◌, Option, none, some, Bool, ◌&&◌, Context, M, pure,
  ◌>>=◌, filter, map,
}
use mathlib.Core.List.{reverse}
use youtube_ar.Model.{Url}
use youtube_ar.Query.{UrlsQuery}
use youtube_ar.Resource.{next_cursor}
use youtube_ar.Sql.{Querier}
use youtube_ar.Sql.Meaning.{UrlRow, is_null_value, null_time, member}
use youtube_ar.Store.{list_urls}

-- A query without a search.
abbrev pub page_query : ℕ → Option (List String) → ℕ → UrlsQuery
page_query limit status cursor = record { cursor = cursor; limit = limit; status = status; q = "" }

-- Whether a row is to be listed, wherever it stands.
abbrev pub is_listed : Option (List String) → UrlRow → Bool
is_listed none r = is_null_value (null_time r.deleted_at)
is_listed (some status) r = is_null_value (null_time r.deleted_at) && member r.url.status status

-- All of them, the latest first.
abbrev pub listing : Option (List String) → List UrlRow → List UrlRow
listing status rows = reverse (filter (is_listed status) rows)

module _ (db : Querier) (ctx : Context) (limit : ℕ) (status : Option (List String)) where
  -- A page, and what comes after it where it has any url.
  abbrev pub with_more : List Url → M db.Conn (List Url) → M db.Conn (List Url)
  with_more [] more = pure []
  with_more (u ∷ page) more = more >>= λ rest. pure ((u ∷ page) ++ rest)

  -- The pages from a cursor on, at most so many, until one is empty.
  unfoldable pub follow : (rounds : ℕ) → (cursor : ℕ) → M db.Conn (List Url)
  unfolding list_urls
  follow zero cursor = pure []
  follow (suc rounds) cursor = list_urls db ctx (page_query limit status cursor) >>= λ page.
      with_more page (follow rounds (next_cursor page))
