-- ===== src/Oembed/Providers/Part09.antt =====
-- api/oembed/providers.go, lines 1208 to 1347: entries of `providersJSON`.
use youtube_ar.Base.{List, [], ◌∷◌, true, false}
use youtube_ar.Oembed.Load.{ProviderResource, provider, endpoint}

abbrev pub providers_09 : List ProviderResource
providers_09 =
    provider (
      endpoint ("https://www.inoreader.com/oembed/" ∷ []) "https://www.inoreader.com/oembed/api/"
        true
      ∷ [])
    ∷ provider (endpoint ("http://*.inphood.com/*" ∷ []) "http://api.inphood.com/oembed" false ∷ [])
    ∷ provider (
        endpoint
          ("http://instagram.com/p/*" ∷ "http://instagr.am/p/*" ∷ "http://www.instagram.com/p/*"
            ∷ "http://www.instagr.am/p/*" ∷ "https://instagram.com/p/*" ∷ "https://instagr.am/p/*"
            ∷ "https://www.instagram.com/p/*" ∷ "https://www.instagr.am/p/*" ∷ [])
          "https://api.instagram.com/oembed" false
        ∷ [])
    ∷ provider
        (endpoint ("https://www.isnare.com/*" ∷ []) "https://www.isnare.com/oembed/" false ∷ [])
    ∷ provider (endpoint ("https://issuu.com/*/docs/*" ∷ []) "https://issuu.com/oembed" true ∷ [])
    ∷ provider (endpoint ([]) "https://music.ivlis.kr/oembed" true ∷ [])
    ∷ provider (
        endpoint
          ("https://tv.kakao.com/channel/*/cliplink/*" ∷ "https://tv.kakao.com/channel/v/*"
            ∷ "https://tv.kakao.com/channel/*/livelink/*" ∷ "https://tv.kakao.com/channel/l/*" ∷ [])
          "https://tv.kakao.com/oembed" true
        ∷ [])
    ∷ provider (
        endpoint ("http://www.kickstarter.com/projects/*" ∷ [])
          "http://www.kickstarter.com/services/oembed" false
        ∷ [])
    ∷ provider (
        endpoint ("https://www.kidoju.com/en/x/*/*" ∷ "https://www.kidoju.com/fr/x/*/*" ∷ [])
          "https://www.kidoju.com/api/oembed" false
        ∷ [])
    ∷ provider (
        endpoint ("http://kit.com/*/*" ∷ "https://kit.com/*/*" ∷ []) "https://embed.kit.com/oembed"
          true
        ∷ [])
    ∷ []
