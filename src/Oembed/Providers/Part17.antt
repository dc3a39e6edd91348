-- ===== src/Oembed/Providers/Part17.antt =====
-- api/oembed/providers.go, lines 2342 to 2482: entries of `providersJSON`.
use youtube_ar.Base.{List, [], ◌∷◌, true, false}
use youtube_ar.Oembed.Load.{ProviderResource, provider, endpoint}

abbrev pub providers_17 : List ProviderResource
providers_17 =
    provider (
      endpoint ("http://speakerdeck.com/*/*" ∷ "https://speakerdeck.com/*/*" ∷ [])
        "https://speakerdeck.com/oembed.json" true
      ∷ [])
    ∷ provider
        (endpoint ("http://play.bespotful.com/*" ∷ []) "https://api.bespotful.com/oembed" true ∷ [])
    ∷ provider (
        endpoint ("https://*.spotify.com/*" ∷ "spotify:*" ∷ []) "https://embed.spotify.com/oembed/"
          false
        ∷ [])
    ∷ provider (
        endpoint ("http://*.spreaker.com/*" ∷ "https://*.spreaker.com/*" ∷ [])
          "https://api.spreaker.com/oembed" true
        ∷ [])
    ∷ provider (
        endpoint ("https://purl.stanford.edu/*" ∷ []) "https://purl.stanford.edu/embed.{format}"
          true
        ∷ [])
    ∷ provider (
        endpoint ("http://streamable.com/*" ∷ "https://streamable.com/*" ∷ [])
          "https://api.streamable.com/oembed.json" true
        ∷ [])
    ∷ provider (
        endpoint ("https://content.streamonecloud.net/embed/*" ∷ [])
          "https://content.streamonecloud.net/oembed" true
        ∷ [])
    ∷ provider (
        endpoint ("https://www.sutori.com/story/*" ∷ []) "https://www.sutori.com/api/oembed" true
        ∷ [])
    ∷ provider (
        endpoint ("https://sway.com/*" ∷ "https://www.sway.com/*" ∷ [])
          "https://sway.com/api/v1.0/oembed" true
        ∷ [])
    ∷ provider (
        endpoint
          ("http://ted.com/talks/*" ∷ "https://ted.com/talks/*" ∷ "https://www.ted.com/talks/*"
            ∷ [])
          "https://www.ted.com/talks/oembed.{format}" false
        ∷ [])
    ∷ []
