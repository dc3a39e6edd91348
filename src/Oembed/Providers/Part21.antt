-- ===== src/Oembed/Providers/Part21.antt =====
-- api/oembed/providers.go, lines 2911 to 3060: entries of `providersJSON`.
use youtube_ar.Base.{List, [], ◌∷◌, true, false}
use youtube_ar.Oembed.Load.{ProviderResource, provider, endpoint}

abbrev pub providers_21 : List ProviderResource
providers_21 =
    provider (endpoint ([]) "http://play.wecandeo.com/oembed" true ∷ [])
    ∷ provider (
        endpoint ("https://*.wiredrive.com/*" ∷ []) "http://*.wiredrive.com/present-oembed/" true
        ∷ [])
    ∷ provider (
        endpoint
          ("https://fast.wistia.com/embed/iframe/*" ∷ "https://fast.wistia.com/embed/playlists/*"
            ∷ "https://*.wistia.com/medias/*" ∷ [])
          "https://fast.wistia.com/oembed.{format}" true
        ∷ [])
    ∷ provider (
        endpoint
          ("http://*.wizer.me/learn/*" ∷ "https://*.wizer.me/learn/*"
            ∷ "http://*.wizer.me/preview/*" ∷ "https://*.wizer.me/preview/*" ∷ [])
          "http://app.wizer.me/api/oembed.{format}" true
        ∷ [])
    ∷ provider (endpoint ([]) "http://www.wootled.com/oembed" false ∷ [])
    ∷ provider (endpoint ([]) "http://public-api.wordpress.com/oembed/" true ∷ [])
    ∷ provider (
        endpoint ("http://yesik.it/*" ∷ "http://www.yesik.it/*" ∷ []) "http://yesik.it/s/oembed"
          true
        ∷ [])
    ∷ provider (
        endpoint ("http://*.yfrog.com/*" ∷ "http://yfrog.us/*" ∷ [])
          "http://www.yfrog.com/api/oembed" false
        ∷ [])
    ∷ provider (
        endpoint
          ("https://*.youtube.com/watch*" ∷ "https://*.youtube.com/v/*" ∷ "https://youtu.be/*" ∷ [])
          "https://www.youtube.com/oembed" true
        ∷ [])
    ∷ provider (endpoint ("https://*.znipe.tv/*" ∷ []) "https://api.znipe.tv/v3/oembed/" true ∷ [])
    ∷ provider (
        endpoint
          ("https://reports.zoho.com/ZDBDataSheetView.cc?OBJID=1432535000000003002&STANDALONE=true&INTERVAL=120&DATATYPESYMBOL=false&REMTOOLBAR=false&SEARCHBOX=true&INCLUDETITLE=true&INCLUDEDESC=true&SHOWHIDEOPT=true"
            ∷ [])
          "http://api.provider.com/oembed.json" true
        ∷ [])
    ∷ []
