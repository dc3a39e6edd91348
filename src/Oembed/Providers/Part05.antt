-- ===== src/Oembed/Providers/Part05.antt =====
-- api/oembed/providers.go, lines 631 to 773: entries of `providersJSON`.
use youtube_ar.Base.{List, [], ◌∷◌, true, false}
use youtube_ar.Oembed.Load.{ProviderResource, provider, endpoint}

abbrev pub providers_05 : List ProviderResource
providers_05 =
    provider (
      endpoint ("http://www.dipity.com/*/*/" ∷ []) "http://www.dipity.com/oembed/timeline/" false
      ∷ [])
    ∷ provider (
        endpoint
          ("https://*.docdroid.net/*" ∷ "http://*.docdroid.net/*" ∷ "https://docdro.id/*"
            ∷ "http://docdro.id/*" ∷ [])
          "https://www.docdroid.net/api/oembed" true
        ∷ [])
    ∷ provider
        (endpoint ("http://dotsub.com/view/*" ∷ []) "http://dotsub.com/services/oembed" false ∷ [])
    ∷ provider (endpoint ("https://d.tube/v/*" ∷ []) "https://api.d.tube/oembed" true ∷ [])
    ∷ provider (endpoint ("http://edocr.com/docs/*" ∷ []) "http://edocr.com/api/oembed" false ∷ [])
    ∷ provider (
        endpoint ([]) "https://www.edumedia-sciences.com/oembed.json" true
        ∷ endpoint ([]) "https://www.edumedia-sciences.com/oembed.xml" true
        ∷ [])
    ∷ provider (
        endpoint ("http://egliseinfo.catholique.fr/*" ∷ [])
          "http://egliseinfo.catholique.fr/api/oembed" true
        ∷ [])
    ∷ provider
        (endpoint ("http://embedarticles.com/*" ∷ []) "http://embedarticles.com/oembed/" false ∷ [])
    ∷ provider (endpoint ([]) "http://api.embed.ly/1/oembed" false ∷ [])
    ∷ provider (
        endpoint ("https://ethfiddle.com/*" ∷ []) "https://ethfiddle.com/services/oembed/" true
        ∷ [])
    ∷ provider (
        endpoint ("https://eyrie.io/board/*" ∷ "https://eyrie.io/sparkfun/*" ∷ [])
          "https://eyrie.io/v1/oembed" true
        ∷ [])
    ∷ []
