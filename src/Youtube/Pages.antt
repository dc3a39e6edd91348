-- ===== src/Youtube/Pages.antt =====
-- The pages of a playlist, as the service links them by tokens, and the loop that follows them.
use youtube_ar.Base.{
  ℕ, zero, suc, ◌≤◌, String, List, ◌++◌, some, Result, ok, ◌≡◌, ◌≢◌, refl, ◌∙◌, ap, arith,
  str_eq_of_ne, GoError, err,
}
use mathlib.Core.List.{append_assoc}
use youtube_ar.Youtube.{
  PlaylistItems, Request, get_playlist_items, videos_from, get_videos_from_playlist,
}

module _ (api_key : String) (respond : List (String × String) → Result PlaylistItems)
    (playlist : String) where
  abbrev request : String → Request
  request token = record { page_token = token; playlist_id = playlist }

  abbrev answer : String → Result PlaylistItems
  answer token = get_playlist_items api_key respond (request token)

  -- From the page with a token on, what the pages list in all and how many they are; or the error
  -- that the service answers instead of one of them.
  pub data Pages : String → Result (List String) → ℕ → Type 0 where
    last :
        {token : String} (page : PlaylistItems)
        → answer token ≡ ok page
        → page.next_page_token ≡ ""
        → Pages token (ok page.items) 1
    broken : {token : String} (e : GoError) → answer token ≡ err e → Pages token (err e) 1
    more :
        {token : String} {rest : List String} {n : ℕ} (page : PlaylistItems)
        → answer token ≡ ok page
        → page.next_page_token ≢ ""
        → Pages page.next_page_token (ok rest) n
        → Pages token (ok (page.items ++ rest)) (suc n)
    more_broken :
        {token : String} {n : ℕ} (e : GoError) (page : PlaylistItems)
        → answer token ≡ ok page
        → page.next_page_token ≢ ""
        → Pages page.next_page_token (err e) n
        → Pages token (err e) (suc n)

  abbrev after : List String → Result (List String) → Result (List String)
  after videos (ok rest) = ok (videos ++ rest)
  after videos (err e) = err e

  videos_from_lem :
      (fuel : ℕ) (token : String) (videos : List String) {r : Result (List String)} {n : ℕ}
      → n ≤ fuel
      → Pages token r n
      → videos_from api_key respond fuel playlist token videos ≡ some (after videos r)
  unfolding videos_from
  videos_from_lem zero token videos small (last page h e) = absurd (omega (arith, small))
  videos_from_lem zero token videos small (broken e h) = absurd (omega (arith, small))
  videos_from_lem zero token videos small (more page h e p) = absurd (omega (arith, small))
  videos_from_lem zero token videos small (more_broken x page h e p) = absurd (omega (arith, small))
  videos_from_lem (suc fuel) token videos small (last page h e) = rw h (rw e refl)
  videos_from_lem (suc fuel) token videos small (broken e h) = rw h refl
  videos_from_lem (suc fuel) token videos small (more {rest = rest} page h e p) = rw h (
      rw (str_eq_of_ne page.next_page_token "" e) (
        videos_from_lem fuel page.next_page_token (videos ++ page.items) (omega arith) p
        ∙ ap (λ v. some (ok v)) (append_assoc videos page.items rest)))
  videos_from_lem (suc fuel) token videos small (more_broken x page h e p) = rw h (
      rw (str_eq_of_ne page.next_page_token "" e)
        (videos_from_lem fuel page.next_page_token (videos ++ page.items) (omega arith) p))

  -- Where the service gives a playlist as n pages that are linked by their tokens, the loop, allowed
  -- at least n rounds, ends and returns the videos of all pages in their order, or the error that the
  -- service answers for one of the pages.
  pub get_videos_from_playlist_complete :
      (fuel : ℕ) {r : Result (List String)} {n : ℕ}
      → n ≤ fuel
      → Pages "" r n
      → get_videos_from_playlist api_key respond fuel playlist ≡ some r
  unfolding get_videos_from_playlist
  get_videos_from_playlist_complete fuel {r = ok rest} small p = videos_from_lem fuel "" _ small p
  get_videos_from_playlist_complete fuel {r = err e} small p = videos_from_lem fuel "" _ small p
