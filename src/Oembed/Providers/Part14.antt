-- ===== src/Oembed/Providers/Part14.antt =====
-- api/oembed/providers.go, lines 1919 to 2058: entries of `providersJSON`.
use youtube_ar.Base.{List, [], ◌∷◌, true, false}
use youtube_ar.Oembed.Load.{ProviderResource, provider, endpoint}

abbrev pub providers_14 : List ProviderResource
providers_14 =
    provider (
      endpoint ("http://www.quizz.biz/quizz-*.html" ∷ []) "http://www.quizz.biz/api/oembed" true
      ∷ [])
    ∷ provider (
        endpoint ("https://rapidengage.com/s/*" ∷ []) "https://rapidengage.com/api/oembed" false
        ∷ [])
    ∷ provider (
        endpoint
          ("https://reddit.com/r/*/comments/*/*" ∷ "https://www.reddit.com/r/*/comments/*/*" ∷ [])
          "https://www.reddit.com/oembed" false
        ∷ [])
    ∷ provider
        (endpoint ("http://rwire.com/*" ∷ []) "http://publisher.releasewire.com/oembed/" true ∷ [])
    ∷ provider (endpoint ("https://repl.it/@*/*" ∷ []) "https://repl.it/data/oembed" true ∷ [])
    ∷ provider (
        endpoint ("http://repubhub.icopyright.net/freePost.act?*" ∷ [])
          "http://repubhub.icopyright.net/oembed.act" true
        ∷ [])
    ∷ provider (
        endpoint ("https://www.reverbnation.com/*" ∷ "https://www.reverbnation.com/*/songs/*" ∷ [])
          "https://www.reverbnation.com/oembed" true
        ∷ [])
    ∷ provider (endpoint ([]) "https://www.riffreporter.de/service/oembed" true ∷ [])
    ∷ provider (
        endpoint ("http://roomshare.jp/post/*" ∷ "http://roomshare.jp/en/post/*" ∷ [])
          "http://roomshare.jp/en/oembed.{format}" false
        ∷ [])
    ∷ provider
        (endpoint ("https://roosterteeth.com/*" ∷ []) "https://roosterteeth.com/oembed" true ∷ [])
    ∷ provider (endpoint ([]) "https://rumble.com/api/Media/oembed.{format}" true ∷ [])
    ∷ []
