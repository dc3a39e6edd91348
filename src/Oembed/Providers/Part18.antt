-- ===== src/Oembed/Providers/Part18.antt =====
-- api/oembed/providers.go, lines 2483 to 2621: entries of `providersJSON`.
use youtube_ar.Base.{List, [], ◌∷◌, true, false}
use youtube_ar.Oembed.Load.{ProviderResource, provider, endpoint}

abbrev pub providers_18 : List ProviderResource
providers_18 =
    provider (
      endpoint
        ("https://www.nytimes.com/svc/oembed" ∷ "https://nytimes.com/*" ∷ "https://*.nytimes.com/*"
          ∷ [])
        "https://www.nytimes.com/svc/oembed/json/" true
      ∷ [])
    ∷ provider (
        endpoint ("https://theysaidso.com/image/*" ∷ []) "https://theysaidso.com/extensions/oembed/"
          true
        ∷ [])
    ∷ provider (
        endpoint
          ("http://www.tickcounter.com/countdown/*" ∷ "http://www.tickcounter.com/countup/*"
            ∷ "http://www.tickcounter.com/ticker/*" ∷ "http://www.tickcounter.com/worldclock/*"
            ∷ "https://www.tickcounter.com/countdown/*" ∷ "https://www.tickcounter.com/countup/*"
            ∷ "https://www.tickcounter.com/ticker/*" ∷ "https://www.tickcounter.com/worldclock/*"
            ∷ [])
          "https://www.tickcounter.com/oembed" true
        ∷ [])
    ∷ provider (
        endpoint
          ("https://www.toornament.com/tournaments/*/information"
            ∷ "https://www.toornament.com/tournaments/*/registration/"
            ∷ "https://www.toornament.com/tournaments/*/matches/schedule"
            ∷ "https://www.toornament.com/tournaments/*/stages/*/" ∷ [])
          "https://widget.toornament.com/oembed" true
        ∷ [])
    ∷ provider (endpoint ("http://www.topy.se/image/*" ∷ []) "http://www.topy.se/oembed/" true ∷ [])
    ∷ provider
        (endpoint ("https://www.tuxx.be/*" ∷ []) "https://www.tuxx.be/services/oembed" true ∷ [])
    ∷ provider (
        endpoint ("http://www.tvcf.co.kr/v/*" ∷ []) "http://www.tvcf.co.kr/services/oembed" false
        ∷ [])
    ∷ provider (
        endpoint
          ("http://clips.twitch.tv/*" ∷ "https://clips.twitch.tv/*" ∷ "http://www.twitch.tv/*"
            ∷ "https://www.twitch.tv/*" ∷ "http://twitch.tv/*" ∷ "https://twitch.tv/*" ∷ [])
          "https://api.twitch.tv/v4/oembed" false
        ∷ [])
    ∷ provider (
        endpoint ("https://twitter.com/*/status/*" ∷ "https://*.twitter.com/*/status/*" ∷ [])
          "https://publish.twitter.com/oembed" false
        ∷ [])
    ∷ []
