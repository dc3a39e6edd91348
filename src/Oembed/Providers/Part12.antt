-- ===== src/Oembed/Providers/Part12.antt =====
-- api/oembed/providers.go, lines 1628 to 1770: entries of `providersJSON`.
use youtube_ar.Base.{List, [], ◌∷◌, true, false}
use youtube_ar.Oembed.Load.{ProviderResource, provider, endpoint}

abbrev pub providers_12 : List ProviderResource
providers_12 =
    provider
      (endpoint ("https://www.nb.no/items/*" ∷ []) "https://api.nb.no/catalog/v1/oembed" true ∷ [])
    ∷ provider (
        endpoint
          ("https://naturalatlas.com/*" ∷ "https://naturalatlas.com/*/*"
            ∷ "https://naturalatlas.com/*/*/*" ∷ "https://naturalatlas.com/*/*/*/*" ∷ [])
          "https://naturalatlas.com/oembed.{format}" true
        ∷ [])
    ∷ provider (
        endpoint ("http://*.nfb.ca/film/*" ∷ []) "http://www.nfb.ca/remote/services/oembed/" true
        ∷ [])
    ∷ provider (
        endpoint ("https://www.odds.com.au/*" ∷ "https://odds.com.au/*" ∷ [])
          "https://www.odds.com.au/api/oembed/" false
        ∷ [])
    ∷ provider (
        endpoint ("http://official.fm/tracks/*" ∷ "http://official.fm/playlists/*" ∷ [])
          "http://official.fm/services/oembed.{format}" false
        ∷ [])
    ∷ provider (
        endpoint ("https://omniscope.me/*" ∷ []) "https://omniscope.me/_global_/oembed/json" false
        ∷ [])
    ∷ provider (endpoint ("http://on.aol.com/video/*" ∷ []) "http://on.aol.com/api" false ∷ [])
    ∷ provider (endpoint ([]) "https://www.ora.tv/oembed/*?format={format}" true ∷ [])
    ∷ provider (
        endpoint
          ("https://orbitvu.co/001/*/ov3601/view" ∷ "https://orbitvu.co/001/*/ov3601/*/view"
            ∷ "https://orbitvu.co/001/*/ov3602/*/view"
            ∷ "https://orbitvu.co/001/*/2/orbittour/*/view"
            ∷ "https://orbitvu.co/001/*/1/2/orbittour/*/view"
            ∷ "http://orbitvu.co/001/*/ov3601/view" ∷ "http://orbitvu.co/001/*/ov3601/*/view"
            ∷ "http://orbitvu.co/001/*/ov3602/*/view" ∷ "http://orbitvu.co/001/*/2/orbittour/*/view"
            ∷ "http://orbitvu.co/001/*/1/2/orbittour/*/view" ∷ [])
          "http://orbitvu.co/service/oembed" true
        ∷ [])
    ∷ provider (endpoint ("https://www.oumy.com/v/*" ∷ []) "https://www.oumy.com/oembed" true ∷ [])
    ∷ []
