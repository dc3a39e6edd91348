-- ===== src/Oembed/Providers/Part06.antt =====
-- api/oembed/providers.go, lines 774 to 923: entries of `providersJSON`.
use youtube_ar.Base.{List, [], ◌∷◌, true, false}
use youtube_ar.Oembed.Load.{ProviderResource, provider, endpoint}

abbrev pub providers_06 : List ProviderResource
providers_06 =
    provider (
      endpoint
        ("https://www.facebook.com/*/posts/*" ∷ "https://www.facebook.com/photos/*"
          ∷ "https://www.facebook.com/*/photos/*" ∷ "https://www.facebook.com/photo.php*"
          ∷ "https://www.facebook.com/photo.php" ∷ "https://www.facebook.com/*/activity/*"
          ∷ "https://www.facebook.com/permalink.php" ∷ "https://www.facebook.com/media/set?set=*"
          ∷ "https://www.facebook.com/questions/*" ∷ "https://www.facebook.com/notes/*/*/*" ∷ [])
        "https://www.facebook.com/plugins/post/oembed.json" true
      ∷ [])
    ∷ provider (
        endpoint ("https://www.facebook.com/*/videos/*" ∷ "https://www.facebook.com/video.php" ∷ [])
          "https://www.facebook.com/plugins/video/oembed.json" true
        ∷ [])
    ∷ provider (
        endpoint ("https://app.getfader.com/projects/*/publish" ∷ [])
          "https://app.getfader.com/api/oembed" false
        ∷ [])
    ∷ provider (
        endpoint
          ("https://faithlifetv.com/items/*" ∷ "https://faithlifetv.com/items/resource/*/*"
            ∷ "https://faithlifetv.com/media/*" ∷ "https://faithlifetv.com/media/assets/*"
            ∷ "https://faithlifetv.com/media/resource/*/*" ∷ [])
          "https://faithlifetv.com/api/oembed" true
        ∷ [])
    ∷ provider
        (endpoint ("https://www.fite.tv/watch/*" ∷ []) "https://www.fite.tv/oembed" true ∷ [])
    ∷ provider (
        endpoint ("https://flat.io/score/*" ∷ "https://*.flat.io/score/*" ∷ [])
          "https://flat.io/services/oembed" true
        ∷ [])
    ∷ provider (
        endpoint
          ("http://*.flickr.com/photos/*" ∷ "http://flic.kr/p/*" ∷ "https://*.flickr.com/photos/*"
            ∷ "https://flic.kr/p/*" ∷ [])
          "https://www.flickr.com/services/oembed/" true
        ∷ [])
    ∷ provider (
        endpoint
          ("https://public.flourish.studio/visualisation/*"
            ∷ "https://public.flourish.studio/story/*" ∷ [])
          "https://app.flourish.studio/api/v1/oembed" true
        ∷ [])
    ∷ provider (
        endpoint ("https://catapult.fontself.com/*" ∷ []) "https://oembed.fontself.com/" false ∷ [])
    ∷ provider (
        endpoint
          ("http://fiso.foxsports.com.au/isomorphic-widget/*"
            ∷ "https://fiso.foxsports.com.au/isomorphic-widget/*" ∷ [])
          "https://fiso.foxsports.com.au/oembed" false
        ∷ [])
    ∷ []
