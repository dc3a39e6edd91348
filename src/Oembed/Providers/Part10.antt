-- ===== src/Oembed/Providers/Part10.antt =====
-- api/oembed/providers.go, lines 1348 to 1485: entries of `providersJSON`.
use youtube_ar.Base.{List, [], ◌∷◌, true, false}
use youtube_ar.Oembed.Load.{ProviderResource, provider, endpoint}

abbrev pub providers_10 : List ProviderResource
providers_10 =
    provider (
      endpoint ("http://www.kitchenbowl.com/recipe/*" ∷ []) "http://www.kitchenbowl.com/oembed" true
      ∷ [])
    ∷ provider (
        endpoint ("http://jdr.knacki.info/meuh/*" ∷ "https://jdr.knacki.info/meuh/*" ∷ [])
          "https://jdr.knacki.info/oembed" false
        ∷ [])
    ∷ provider
        (endpoint ("http://learningapps.org/*" ∷ []) "http://learningapps.org/oembed.php" true ∷ [])
    ∷ provider (
        endpoint ("https://pod.univ-lille.fr/video/*" ∷ []) "https://pod.univ-lille.fr/oembed" true
        ∷ [])
    ∷ provider (
        endpoint
          ("https://livestream.com/accounts/*/events/*"
            ∷ "https://livestream.com/accounts/*/events/*/videos/*"
            ∷ "https://livestream.com/*/events/*" ∷ "https://livestream.com/*/events/*/videos/*"
            ∷ "https://livestream.com/*/*" ∷ "https://livestream.com/*/*/videos/*" ∷ [])
          "https://livestream.com/oembed" true
        ∷ [])
    ∷ provider (endpoint ("https://app.ludus.one/*" ∷ []) "https://app.ludus.one/oembed" true ∷ [])
    ∷ provider (
        endpoint
          ("http://mathembed.com/latex?inputText=*" ∷ "http://mathembed.com/latex?inputText=*" ∷ [])
          "http://mathembed.com/oembed" false
        ∷ [])
    ∷ provider (endpoint ([]) "https://my.matterport.com/api/v1/models/oembed/" true ∷ [])
    ∷ provider (endpoint ("https://me.me/i/*" ∷ []) "https://me.me/oembed" true ∷ [])
    ∷ provider (
        endpoint ("https://medienarchiv.zhdk.ch/entries/*" ∷ [])
          "https://medienarchiv.zhdk.ch/oembed.{format}" true
        ∷ [])
    ∷ []
