-- ===== src/Oembed/Providers/Part16.antt =====
-- api/oembed/providers.go, lines 2205 to 2341: entries of `providersJSON`.
use youtube_ar.Base.{List, [], ◌∷◌, true, false}
use youtube_ar.Oembed.Load.{ProviderResource, provider, endpoint}

abbrev pub providers_16 : List ProviderResource
providers_16 =
    provider (endpoint ("https://onsizzle.com/i/*" ∷ []) "https://onsizzle.com/oembed" true ∷ [])
    ∷ provider (
        endpoint
          ("http://sketchfab.com/models/*" ∷ "https://sketchfab.com/models/*"
            ∷ "https://sketchfab.com/*/folders/*" ∷ [])
          "http://sketchfab.com/oembed" false
        ∷ [])
    ∷ provider (
        endpoint
          ("http://www.slideshare.net/*/*" ∷ "http://fr.slideshare.net/*/*"
            ∷ "http://de.slideshare.net/*/*" ∷ "http://es.slideshare.net/*/*"
            ∷ "http://pt.slideshare.net/*/*" ∷ [])
          "http://www.slideshare.net/api/oembed/2" true
        ∷ [])
    ∷ provider (
        endpoint
          ("https://smashnotes.com/p/*"
            ∷ "https://smashnotes.com/p/*/e/* - https://smashnotes.com/p/*/e/*/s/*" ∷ [])
          "https://smashnotes.com/services/oembed" true
        ∷ [])
    ∷ provider (
        endpoint ("http://*.smugmug.com/*" ∷ []) "http://api.smugmug.com/services/oembed/" true
        ∷ [])
    ∷ provider (
        endpoint
          ("https://www.socialexplorer.com/*/explore" ∷ "https://www.socialexplorer.com/*/view"
            ∷ "https://www.socialexplorer.com/*/edit" ∷ "https://www.socialexplorer.com/*/embed"
            ∷ [])
          "https://www.socialexplorer.com/services/oembed/" true
        ∷ [])
    ∷ provider (endpoint ("https://song.link/*" ∷ []) "https://song.link/oembed" true ∷ [])
    ∷ provider (
        endpoint ("http://soundcloud.com/*" ∷ "https://soundcloud.com/*" ∷ [])
          "https://soundcloud.com/oembed" false
        ∷ [])
    ∷ provider (
        endpoint ("https://play.soundsgood.co/playlist/*" ∷ "https://soundsgood.co/playlist/*" ∷ [])
          "https://play.soundsgood.co/oembed" true
        ∷ [])
    ∷ []
