-- ===== src/Oembed/Providers/Part19.antt =====
-- api/oembed/providers.go, lines 2622 to 2766: entries of `providersJSON`.
use youtube_ar.Base.{List, [], ◌∷◌, true, false}
use youtube_ar.Oembed.Load.{ProviderResource, provider, endpoint}

abbrev pub providers_19 : List ProviderResource
providers_19 =
    provider (
      endpoint
        ("https://play.typecast.ai/s/*" ∷ "https://play.typecast.ai/e/*"
          ∷ "https://play.typecast.ai/*" ∷ [])
        "https://play.typecast.ai/oembed" false
      ∷ [])
    ∷ provider (
        endpoint ("https://player.ubideo.com/*" ∷ []) "https://player.ubideo.com/api/oembed.json"
          false
        ∷ [])
    ∷ provider
        (endpoint ("https://map.cam.ac.uk/*" ∷ []) "https://map.cam.ac.uk/oembed/" false ∷ [])
    ∷ provider (
        endpoint ("https://*.uol.com.br/view/*" ∷ "https://*.uol.com.br/video/*" ∷ [])
          "https://mais.uol.com.br/apiuol/v3/oembed/view" true
        ∷ [])
    ∷ provider (
        endpoint ("http://*.ustream.tv/*" ∷ "http://*.ustream.com/*" ∷ [])
          "http://www.ustream.tv/oembed" false
        ∷ [])
    ∷ provider (
        endpoint
          ("https://www.utposts.com/products/*" ∷ "http://www.utposts.com/products/*"
            ∷ "https://utposts.com/products/*" ∷ "http://utposts.com/products/*" ∷ [])
          "https://www.utposts.com/api/oembed" false
        ∷ [])
    ∷ provider
        (endpoint ("http://uttles.com/uttle/*" ∷ []) "http://uttles.com/api/reply/oembed" true ∷ [])
    ∷ provider (
        endpoint ("http://veer.tv/videos/*" ∷ []) "https://api.veer.tv/oembed" true
        ∷ endpoint ("http://veervr.tv/videos/*" ∷ []) "https://api.veervr.tv/oembed" true
        ∷ [])
    ∷ provider (endpoint ([]) "http://verse.com/services/oembed/" false ∷ [])
    ∷ provider (
        endpoint ("http://www.vevo.com/*" ∷ "https://www.vevo.com/*" ∷ [])
          "https://www.vevo.com/oembed" false
        ∷ [])
    ∷ []
