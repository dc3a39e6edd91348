-- ===== src/Oembed/Providers/Part04.antt =====
-- api/oembed/providers.go, lines 487 to 630: entries of `providersJSON`.
use youtube_ar.Base.{List, [], ◌∷◌, true, false}
use youtube_ar.Oembed.Load.{ProviderResource, provider, endpoint}

abbrev pub providers_04 : List ProviderResource
providers_04 =
    provider
      (endpoint ("https://commaful.com/play/*" ∷ []) "https://commaful.com/api/oembed/" false ∷ [])
    ∷ provider (
        endpoint ("http://coub.com/view/*" ∷ "http://coub.com/embed/*" ∷ [])
          "http://coub.com/api/oembed.{format}" false
        ∷ [])
    ∷ provider (
        endpoint ("http://crowdranking.com/*/*" ∷ []) "http://crowdranking.com/api/oembed.{format}"
          false
        ∷ [])
    ∷ provider (
        endpoint
          ("https://staging.cyranosystems.com/msg/*" ∷ "https://app.cyranosystems.com/msg/*" ∷ [])
          "https://staging.cyranosystems.com/oembed" true
        ∷ [])
    ∷ provider (
        endpoint ("http://www.dailymile.com/people/*/entries/*" ∷ [])
          "http://api.dailymile.com/oembed?format=json" false
        ∷ [])
    ∷ provider (
        endpoint ("https://www.dailymotion.com/video/*" ∷ [])
          "https://www.dailymotion.com/services/oembed" true
        ∷ [])
    ∷ provider
        (endpoint ("https://*.deseretnews.com/*" ∷ []) "https://embed.deseretnews.com/" false ∷ [])
    ∷ provider (
        endpoint
          ("http://*.deviantart.com/art/*" ∷ "http://*.deviantart.com/*#/d*" ∷ "http://fav.me/*"
            ∷ "http://sta.sh/*" ∷ "https://*.deviantart.com/art/*"
            ∷ "https://*.deviantart.com/*/art/*" ∷ "https://sta.sh/*\","
            ∷ "https://*.deviantart.com/*#/d*\"" ∷ [])
          "http://backend.deviantart.com/oembed" false
        ∷ [])
    ∷ provider (
        endpoint ("https://*.didacte.com/a/course/*" ∷ []) "https://*.didacte.com/cards/oembed'"
          true
        ∷ [])
    ∷ provider (
        endpoint
          ("https://www.ultimedia.com/central/video/edit/id/*/topic_id/*/"
            ∷ "https://www.ultimedia.com/default/index/videogeneric/id/*/showtitle/1/viewnc/1"
            ∷ "https://www.ultimedia.com/default/index/videogeneric/id/*" ∷ [])
          "https://www.ultimedia.com/api/search/oembed" true
        ∷ [])
    ∷ []
