-- ===== src/Oembed/Providers/Part20.antt =====
-- api/oembed/providers.go, lines 2767 to 2910: entries of `providersJSON`.
use youtube_ar.Base.{List, [], ◌∷◌, true, false}
use youtube_ar.Oembed.Load.{ProviderResource, provider, endpoint}

abbrev pub providers_20 : List ProviderResource
providers_20 =
    provider (
      endpoint ("http://www.videojug.com/film/*" ∷ "http://www.videojug.com/interview/*" ∷ [])
        "http://www.videojug.com/oembed.{format}" false
      ∷ [])
    ∷ provider (endpoint ("https://vidl.it/*" ∷ []) "https://api.vidl.it/oembed" true ∷ [])
    ∷ provider (
        endpoint ("https://players.vidmizer.com/*" ∷ []) "https://app-v2.vidmizer.com/api/oembed"
          true
        ∷ [])
    ∷ provider (
        endpoint
          ("http://embed.vidyard.com/*" ∷ "http://play.vidyard.com/*" ∷ "http://share.vidyard.com/*"
            ∷ "http://*.hubs.vidyard.com/*" ∷ [])
          "https://api.vidyard.com/dashboard/v1.1/oembed" true
        ∷ [])
    ∷ provider (
        endpoint
          ("https://vimeo.com/*" ∷ "https://vimeo.com/album/*/video/*"
            ∷ "https://vimeo.com/channels/*/*" ∷ "https://vimeo.com/groups/*/videos/*"
            ∷ "https://vimeo.com/ondemand/*/*" ∷ "https://player.vimeo.com/video/*" ∷ [])
          "https://vimeo.com/api/oembed.{format}" true
        ∷ [])
    ∷ provider (
        endpoint ("http://viziosphere.com/3dphoto*" ∷ []) "http://viziosphere.com/services/oembed/"
          true
        ∷ [])
    ∷ provider (endpoint ("https://vlipsy.com/*" ∷ []) "https://vlipsy.com/oembed" true ∷ [])
    ∷ provider
        (endpoint ("https://www.vlive.tv/video/*" ∷ []) "https://www.vlive.tv/oembed" false ∷ [])
    ∷ provider (
        endpoint ("http://vlurb.co/video/*" ∷ "https://vlurb.co/video/*" ∷ [])
          "https://vlurb.co/oembed.json" true
        ∷ [])
    ∷ provider (
        endpoint ("https://article.voxsnap.com/*/*" ∷ []) "https://data.voxsnap.com/oembed" true
        ∷ [])
    ∷ []
