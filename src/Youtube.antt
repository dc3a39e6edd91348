-- ===== src/Youtube.antt =====
-- api/youtube/youtube.go: the videos of a playlist, page by page.
pub mod Pages
use youtube_ar.Base.{
  ℕ, zero, suc, String, List, [], ◌∷◌, ◌++◌, Option, none, some, Result, ok, err, str_eq,
  if◌then◌else◌,
}

-- The part of a response that is read: the ids of the page's videos and the token of the next page.
pub record PlaylistItems : Type 0 where
  pub next_page_token : String
  pub items : List String

pub record Request : Type 0 where
  pub page_token : String
  pub playlist_id : String

-- The query of a request's URL, in the order in which it is set.
abbrev set_param : String → String → List (String × String) → List (String × String)
set_param key value q = if str_eq value "" then q else q ++ (key, value) ∷ []

unfoldable pub request_query : (api_key : String) → Request → List (String × String)
request_query api_key g = set_param "key" api_key (
    set_param "pageToken" g.page_token
      (set_param "playlistId" g.playlist_id (("part", "snippet") ∷ ("maxResults", "50") ∷ [])))

-- `respond` is what the service answers to a query, as decoded from JSON.
module _ (api_key : String) (respond : List (String × String) → Result PlaylistItems) where
  unfoldable pub get_playlist_items : Request → Result PlaylistItems
  unfolding request_query
  get_playlist_items g = respond (request_query api_key g)

  -- One round of the loop, `again` being the rounds that follow. `none` means that the rounds allowed
  -- are used up.
  abbrev pub round :
      (String → List String → Option (Result (List String)))
      → List String
      → Result PlaylistItems
      → Option (Result (List String))
  round again videos (err e) = some (err e)
  round again videos (ok page) =
      if str_eq page.next_page_token ""
      then some (ok (videos ++ page.items))
      else again page.next_page_token (videos ++ page.items)

  unfoldable pub videos_from : ℕ → String → String → List String → Option (Result (List String))
  unfolding get_playlist_items
  videos_from zero playlist token videos = none
  videos_from (suc fuel) playlist token videos =
      round (videos_from fuel playlist) videos
        (get_playlist_items (record { page_token = token; playlist_id = playlist }))

  unfoldable pub get_videos_from_playlist : ℕ → String → Option (Result (List String))
  unfolding videos_from
  get_videos_from_playlist fuel playlist = videos_from fuel playlist "" []
