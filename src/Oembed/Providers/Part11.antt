-- ===== src/Oembed/Providers/Part11.antt =====
-- api/oembed/providers.go, lines 1486 to 1627: entries of `providersJSON`.
use youtube_ar.Base.{List, [], ◌∷◌, true, false}
use youtube_ar.Oembed.Load.{ProviderResource, provider, endpoint}

abbrev pub providers_11 : List ProviderResource
providers_11 =
    provider (
      endpoint
        ("http://meetup.com/*" ∷ "https://www.meetup.com/*" ∷ "https://meetup.com/*"
          ∷ "http://meetu.ps/*" ∷ [])
        "https://api.meetup.com/oembed" false
      ∷ [])
    ∷ provider (
        endpoint ("http://www.mixcloud.com/*/*/" ∷ "https://www.mixcloud.com/*/*/" ∷ [])
          "https://www.mixcloud.com/oembed/" false
        ∷ [])
    ∷ provider (
        endpoint ("http://www.mobypicture.com/user/*/view/*" ∷ "http://moby.to/*" ∷ [])
          "http://api.mobypicture.com/oEmbed" false
        ∷ [])
    ∷ provider (
        endpoint ("https://beta.modelo.io/embedded/*" ∷ []) "https://portal.modelo.io/oembed" false
        ∷ [])
    ∷ provider (
        endpoint ("https://m-roll.morphcast.com/mroll/*" ∷ [])
          "https://m-roll.morphcast.com/service/oembed" true
        ∷ [])
    ∷ provider (
        endpoint ("https://musicboxmaniacs.com/explore/melody/*" ∷ [])
          "https://musicboxmaniacs.com/embed/" true
        ∷ [])
    ∷ provider (
        endpoint ("https://mybeweeg.com/w/*" ∷ []) "https://mybeweeg.com/services/oembed" false
        ∷ [])
    ∷ provider
        (endpoint ("https://namchey.com/embeds/*" ∷ []) "https://namchey.com/api/oembed" true ∷ [])
    ∷ provider (
        endpoint
          ("http://*.nanoo.tv/link/*" ∷ "http://nanoo.tv/link/*" ∷ "http://*.nanoo.pro/link/*"
            ∷ "http://nanoo.pro/link/*" ∷ "https://*.nanoo.tv/link/*" ∷ "https://nanoo.tv/link/*"
            ∷ "https://*.nanoo.pro/link/*" ∷ "https://nanoo.pro/link/*"
            ∷ "http://media.zhdk.ch/signatur/*" ∷ "http://new.media.zhdk.ch/signatur/*"
            ∷ "https://media.zhdk.ch/signatur/*" ∷ "https://new.media.zhdk.ch/signatur/*" ∷ [])
          "https://www.nanoo.tv/services/oembed" true
        ∷ [])
    ∷ []
