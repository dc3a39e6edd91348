-- ===== src/Oembed/Providers/Part08.antt =====
-- api/oembed/providers.go, lines 1064 to 1207: entries of `providersJSON`.
use youtube_ar.Base.{List, [], ◌∷◌, true, false}
use youtube_ar.Oembed.Load.{ProviderResource, provider, endpoint}

abbrev pub providers_08 : List ProviderResource
providers_08 =
    provider
      (endpoint ("https://gtchannel.com/watch/*" ∷ []) "https://api.luminery.com/oembed" true ∷ [])
    ∷ provider (endpoint ("https://gyazo.com/*" ∷ []) "https://api.gyazo.com/api/oembed" false ∷ [])
    ∷ provider (endpoint ("https://hearthis.at/*/*/" ∷ []) "https://hearthis.at/oembed/" true ∷ [])
    ∷ provider
        (endpoint ("http://huffduffer.com/*/*" ∷ []) "http://huffduffer.com/oembed" false ∷ [])
    ∷ provider (
        endpoint ("http://www.hulu.com/watch/*" ∷ []) "http://www.hulu.com/api/oembed.{format}"
          false
        ∷ [])
    ∷ provider (
        endpoint ("http://www.ifixit.com/Guide/View/*" ∷ []) "http://www.ifixit.com/Embed" false
        ∷ [])
    ∷ provider
        (endpoint ("http://ifttt.com/recipes/*" ∷ []) "http://www.ifttt.com/oembed/" true ∷ [])
    ∷ provider (
        endpoint ("https://player.indacolive.com/player/jwp/clients/*" ∷ [])
          "https://player.indacolive.com/services/oembed" false
        ∷ [])
    ∷ provider (endpoint ("https://infogr.am/*" ∷ []) "https://infogr.am/oembed" false ∷ [])
    ∷ provider (
        endpoint ("https://*.infoveave.net/E/*" ∷ "https://*.infoveave.net/P/*" ∷ [])
          "https://infoveave.net/services/oembed/" true
        ∷ [])
    ∷ provider (
        endpoint ("https://www.injurymap.com/exercises/*" ∷ [])
          "https://www.injurymap.com/services/oembed" true
        ∷ [])
    ∷ []
