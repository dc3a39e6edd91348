-- ===== src/Oembed/Providers/Part02.antt =====
-- api/oembed/providers.go, lines 197 to 339: entries of `providersJSON`.
use youtube_ar.Base.{List, [], ◌∷◌, true, false}
use youtube_ar.Oembed.Load.{ProviderResource, provider, endpoint}

abbrev pub providers_02 : List ProviderResource
providers_02 =
    provider
      (endpoint ("http://audiosnaps.com/k/*" ∷ []) "http://audiosnaps.com/service/oembed" true ∷ [])
    ∷ provider (
        endpoint
          ("https://backtracks.fm/*/*/e/*" ∷ "https://backtracks.fm/*" ∷ "http://backtracks.fm/*"
            ∷ [])
          "https://backtracks.fm/oembed" true
        ∷ [])
    ∷ provider (endpoint ([]) "https://www.beautiful.ai/api/oembed" true ∷ [])
    ∷ provider (
        endpoint
          ("https://blackfire.io/profiles/*/graph" ∷ "https://blackfire.io/profiles/compare/*/graph"
            ∷ [])
          "https://blackfire.io/oembed" true
        ∷ [])
    ∷ provider (endpoint ([]) "http://boxofficebuz.com/oembed" true ∷ [])
    ∷ provider (
        endpoint ("https://view.briovr.com/api/v1/worlds/oembed/*" ∷ [])
          "https://view.briovr.com/api/v1/worlds/oembed/" false
        ∷ [])
    ∷ provider
        (endpoint ("https://buttondown.email/*" ∷ []) "https://buttondown.email/embed" true ∷ [])
    ∷ provider
        (endpoint ("https://cmc.byzart.eu/files/*" ∷ []) "https://cmc.byzart.eu/oembed/" false ∷ [])
    ∷ provider (
        endpoint ("https://cacoo.com/diagrams/*" ∷ []) "http://cacoo.com/oembed.{format}" false
        ∷ [])
    ∷ provider (
        endpoint ("https://carbonhealth.com/practice/*" ∷ []) "http://carbonhealth.com/oembed" true
        ∷ [])
    ∷ provider
        (endpoint ("http://img.catbo.at/*" ∷ []) "http://img.catbo.at/oembed.json" false ∷ [])
    ∷ []
