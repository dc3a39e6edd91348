-- ===== src/Oembed/Providers/Part01.antt =====
-- api/oembed/providers.go, lines 49 to 196: entries of `providersJSON`.
use youtube_ar.Base.{List, [], ◌∷◌, true, false}
use youtube_ar.Oembed.Load.{ProviderResource, provider, endpoint}

abbrev pub providers_01 : List ProviderResource
providers_01 =
    provider
      (endpoint ("http://www.23hq.com/*/photo/*" ∷ []) "http://www.23hq.com/23/oembed" false ∷ [])
    ∷ provider (
        endpoint ("http://play.adpaths.com/experience/*" ∷ []) "http://play.adpaths.com/oembed/*"
          false
        ∷ [])
    ∷ provider (
        endpoint ("https://alpha.app.net/*/post/*" ∷ "https://photos.app.net/*/*" ∷ [])
          "https://alpha-api.app.net/oembed" false
        ∷ [])
    ∷ provider (
        endpoint ("https://app.altrulabs.com/*/*?answer_id=*" ∷ [])
          "https://api.altrulabs.com/social/oembed" false
        ∷ [])
    ∷ provider (
        endpoint ("http://live.amcharts.com/*" ∷ "https://live.amcharts.com/*" ∷ [])
          "https://live.amcharts.com/oembed" false
        ∷ [])
    ∷ provider (
        endpoint ("https://www.animatron.com/project/*" ∷ "https://animatron.com/project/*" ∷ [])
          "https://animatron.com/oembed/json" true
        ∷ [])
    ∷ provider
        (endpoint ("http://animoto.com/play/*" ∷ []) "http://animoto.com/oembeds/create" false ∷ [])
    ∷ provider (
        endpoint ("https://renderer.apester.com/v2/*?preview=true&iframe_preview=true" ∷ [])
          "https://display.apester.com/oembed" true
        ∷ [])
    ∷ provider (
        endpoint ("https://app.archivos.digital/app/view/*" ∷ [])
          "https://app.archivos.digital/oembed/" false
        ∷ [])
    ∷ provider (
        endpoint
          ("https://audioclip.naver.com/channels/*/clips/*"
            ∷ "https://audioclip.naver.com/audiobooks/*" ∷ [])
          "https://audioclip.naver.com/oembed" true
        ∷ [])
    ∷ provider (
        endpoint
          ("https://www.audiomack.com/song/*" ∷ "https://www.audiomack.com/album/*"
            ∷ "https://www.audiomack.com/playlist/*" ∷ [])
          "https://www.audiomack.com/oembed" true
        ∷ [])
    ∷ []
