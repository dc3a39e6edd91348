-- ===== src/Oembed/Providers/Part15.antt =====
-- api/oembed/providers.go, lines 2059 to 2204: entries of `providersJSON`.
use youtube_ar.Base.{List, [], ◌∷◌, true, false}
use youtube_ar.Oembed.Load.{ProviderResource, provider, endpoint}

abbrev pub providers_15 : List ProviderResource
providers_15 =
    provider (endpoint ("http://videos.sapo.pt/*" ∷ []) "http://videos.sapo.pt/oembed" false ∷ [])
    ∷ provider (
        endpoint ("https://console.screen9.com/*" ∷ "https://*.screen9.tv/*" ∷ [])
          "https://api.screen9.com/oembed" false
        ∷ [])
    ∷ provider (endpoint ([]) "https://api.screencast.com/external/oembed" true ∷ [])
    ∷ provider (
        endpoint ("http://www.screenr.com/*/" ∷ []) "http://www.screenr.com/api/oembed.{format}"
          false
        ∷ [])
    ∷ provider (
        endpoint
          ("http://www.scribblemaps.com/maps/view/*" ∷ "https://www.scribblemaps.com/maps/view/*"
            ∷ "http://scribblemaps.com/maps/view/*" ∷ "https://scribblemaps.com/maps/view/*" ∷ [])
          "https://scribblemaps.com/api/services/oembed.{format}" true
        ∷ [])
    ∷ provider (
        endpoint ("http://www.scribd.com/doc/*" ∷ []) "http://www.scribd.com/services/oembed/" false
        ∷ [])
    ∷ provider (
        endpoint ("https://embed.sendtonews.com/oembed/*" ∷ [])
          "https://embed.sendtonews.com/services/oembed" true
        ∷ [])
    ∷ provider (
        endpoint ("https://www.shortnote.jp/view/notes/*" ∷ []) "https://www.shortnote.jp/oembed/"
          true
        ∷ [])
    ∷ provider (
        endpoint ("http://shoudio.com/*" ∷ "http://shoud.io/*" ∷ []) "http://shoudio.com/api/oembed"
          false
        ∷ [])
    ∷ provider
        (endpoint ("https://showtheway.io/to/*" ∷ []) "https://showtheway.io/oembed" true ∷ [])
    ∷ provider
        (endpoint ("https://simplecast.com/s/*" ∷ []) "https://simplecast.com/oembed" false ∷ [])
    ∷ []
