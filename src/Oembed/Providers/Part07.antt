-- ===== src/Oembed/Providers/Part07.antt =====
-- api/oembed/providers.go, lines 924 to 1063: entries of `providersJSON`.
use youtube_ar.Base.{List, [], ◌∷◌, true, false}
use youtube_ar.Oembed.Load.{ProviderResource, provider, endpoint}

abbrev pub providers_07 : List ProviderResource
providers_07 =
    provider (
      endpoint ("http://framebuzz.com/v/*" ∷ "https://framebuzz.com/v/*" ∷ [])
        "https://framebuzz.com/oembed/" true
      ∷ [])
    ∷ provider (
        endpoint ("http://www.funnyordie.com/videos/*" ∷ [])
          "http://www.funnyordie.com/oembed.{format}" false
        ∷ [])
    ∷ provider (
        endpoint
          ("http://*.geograph.org.uk/*" ∷ "http://*.geograph.co.uk/*" ∷ "http://*.geograph.ie/*"
            ∷ "http://*.wikimedia.org/*_geograph.org.uk_*" ∷ [])
          "http://api.geograph.org.uk/api/oembed" false
        ∷ [])
    ∷ provider (
        endpoint
          ("http://*.geograph.org.gg/*" ∷ "http://*.geograph.org.je/*"
            ∷ "http://channel-islands.geograph.org/*" ∷ "http://channel-islands.geographs.org/*"
            ∷ "http://*.channel.geographs.org/*" ∷ [])
          "http://www.geograph.org.gg/api/oembed" false
        ∷ [])
    ∷ provider (
        endpoint
          ("http://geo-en.hlipp.de/*" ∷ "http://geo.hlipp.de/*" ∷ "http://germany.geograph.org/*"
            ∷ [])
          "http://geo.hlipp.de/restapi.php/api/oembed" false
        ∷ [])
    ∷ provider (endpoint ("http://gty.im/*" ∷ []) "http://embed.gettyimages.com/oembed" false ∷ [])
    ∷ provider (
        endpoint
          ("http://gfycat.com/*" ∷ "http://www.gfycat.com/*" ∷ "https://gfycat.com/*"
            ∷ "https://www.gfycat.com/*" ∷ [])
          "https://api.gfycat.com/v1/oembed" true
        ∷ [])
    ∷ provider (
        endpoint ("https://www.gifnote.com/play/*" ∷ []) "https://www.gifnote.com/services/oembed"
          true
        ∷ [])
    ∷ provider (
        endpoint
          ("https://giphy.com/gifs/*" ∷ "http://gph.is/*"
            ∷ "https://media.giphy.com/media/*/giphy.gif" ∷ [])
          "https://giphy.com/services/oembed" true
        ∷ [])
    ∷ provider (endpoint ([]) "https://gloria.tv/oembed/" true ∷ [])
    ∷ []
