-- ===== src/Oembed/Providers/Part13.antt =====
-- api/oembed/providers.go, lines 1771 to 1918: entries of `providersJSON`.
use youtube_ar.Base.{List, [], ◌∷◌, true, false}
use youtube_ar.Oembed.Load.{ProviderResource, provider, endpoint}

abbrev pub providers_13 : List ProviderResource
providers_13 =
    provider
      (endpoint ("https://outplayed.tv/media/*" ∷ []) "https://outplayed.tv/oembed" true ∷ [])
    ∷ provider (
        endpoint ("https://overflow.io/s/*" ∷ "https://overflow.io/embed/*" ∷ [])
          "https://overflow.io/services/oembed" true
        ∷ [])
    ∷ provider (
        endpoint
          ("http://pastery.net/*" ∷ "https://pastery.net/*" ∷ "http://www.pastery.net/*"
            ∷ "https://www.pastery.net/*" ∷ [])
          "https://www.pastery.net/oembed" true
        ∷ [])
    ∷ provider (endpoint ([]) "https://beta.pingvp.com.kpnis.nl/p/oembed.php" true ∷ [])
    ∷ provider (
        endpoint
          ("https://store.pixdor.com/place-marker-widget/*/show"
            ∷ "https://store.pixdor.com/map/*/show" ∷ [])
          "https://store.pixdor.com/oembed" true
        ∷ [])
    ∷ provider (
        endpoint ("https://*.podbean.com/e/*" ∷ "http://*.podbean.com/e/*" ∷ [])
          "https://api.podbean.com/v1/oembed" false
        ∷ [])
    ∷ provider (
        endpoint
          ("http://*.polldaddy.com/s/*" ∷ "http://*.polldaddy.com/poll/*"
            ∷ "http://*.polldaddy.com/ratings/*" ∷ [])
          "http://polldaddy.com/oembed/" false
        ∷ [])
    ∷ provider (
        endpoint ("https://app.sellwithport.com/#/buyer/*" ∷ [])
          "https://api.sellwithport.com/v1.0/buyer/oembed" false
        ∷ [])
    ∷ provider (
        endpoint ("https://portfolium.com/entry/*" ∷ []) "https://api.portfolium.com/oembed" false
        ∷ [])
    ∷ provider (
        endpoint ("https://posixion.com/question/*" ∷ "https://posixion.com/*/question/*" ∷ [])
          "http://posixion.com/services/oembed/" false
        ∷ [])
    ∷ provider (
        endpoint ("http://www.quiz.biz/quizz-*.html" ∷ []) "http://www.quiz.biz/api/oembed" true
        ∷ [])
    ∷ []
