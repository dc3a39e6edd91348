-- ===== src/Oembed.antt =====
-- api/oembed/oembed.go: the oembed data of a url, by a known provider or by the page itself.
pub mod Glob
pub mod Html
pub mod Load
pub mod Providers
pub mod Known
use youtube_ar.Base.{
  String, ◌<>◌, List, [], ◌∷◌, Option, none, some, Bool, true, false, Result, ok, err, GoError,
  failed, codes, str_eq, if◌then◌else◌,
}
use youtube_ar.Oembed.Glob.{match}
use youtube_ar.Oembed.Html.{Node, find_link}
use youtube_ar.Oembed.Load.{Provider}

-- `fetch` is a GET request, with the body read; `parse_html` is html.Parse of such a body, and
-- `with_query` gives a provider's endpoint the query of a url, `format=json&url=URL`.
module _ (fetch : String → Result String) (parse_html : String → Result Node)
    (with_query : (endpoint url : String) → String) where
  abbrev parsed : Result Node → Result String
  parsed (err e) = err e
  parsed (ok doc) = ok (find_link doc)

  abbrev fetched : Result String → Result String
  fetched (err e) = err e
  fetched (ok body) = parsed (parse_html body)

  unfoldable pub discover : String → Result String
  unfolding find_link
  discover url = fetched (fetch url)

  -- The loop over the known providers, from where it stands.
  unfoldable pub find : List Provider → String → Result String
  unfolding match discover
  find [] url = discover url
  find (p ∷ providers) url =
      let next = find providers url in
      elim (match (codes p.pattern) (codes url)) [
        | none ↦ err (failed "syntax error in pattern")
        | some false ↦ next
        | some true ↦
            if p.endpoint.discovery then discover url else ok (with_query p.endpoint.url url)
      ]

  abbrev found : Result String → Result String
  found (err e) = err e
  found (ok oembed_url) =
      if str_eq oembed_url "" then err (failed "couldn't find oembed URL") else fetch oembed_url

  unfoldable pub get : List Provider → String → Result String
  unfolding find
  get providers url = found (find providers url)
