-- ===== src/Oembed/Providers/Part03.antt =====
-- api/oembed/providers.go, lines 340 to 486: entries of `providersJSON`.
use youtube_ar.Base.{List, [], ◌∷◌, true, false}
use youtube_ar.Oembed.Load.{ProviderResource, provider, endpoint}

abbrev pub providers_03 : List ProviderResource
providers_03 =
    provider (endpoint ("http://view.ceros.com/*" ∷ []) "http://view.ceros.com/oembed" true ∷ [])
    ∷ provider (
        endpoint ("http://public.chartblocks.com/c/*" ∷ [])
          "http://embed.chartblocks.com/1.0/oembed" false
        ∷ [])
    ∷ provider (endpoint ("http://chirb.it/*" ∷ []) "http://chirb.it/oembed.{format}" true ∷ [])
    ∷ provider (
        endpoint ("https://www.circuitlab.com/circuit/*" ∷ [])
          "https://www.circuitlab.com/circuit/oembed/" true
        ∷ [])
    ∷ provider (
        endpoint ("http://www.clipland.com/v/*" ∷ "https://www.clipland.com/v/*" ∷ [])
          "https://www.clipland.com/api/oembed" true
        ∷ [])
    ∷ provider (
        endpoint ("http://clyp.it/*" ∷ "http://clyp.it/playlist/*" ∷ [])
          "http://api.clyp.it/oembed/" true
        ∷ [])
    ∷ provider (
        endpoint ("https://codehs.com/editor/share_abacus/*" ∷ [])
          "https://codehs.com/api/sharedprogram/*/oembed/" true
        ∷ [])
    ∷ provider (
        endpoint ("http://codepen.io/*" ∷ "https://codepen.io/*" ∷ [])
          "http://codepen.io/api/oembed" false
        ∷ [])
    ∷ provider (
        endpoint
          ("http://codepoints.net/*" ∷ "https://codepoints.net/*" ∷ "http://www.codepoints.net/*"
            ∷ "https://www.codepoints.net/*" ∷ [])
          "https://codepoints.net/api/v1/oembed" true
        ∷ [])
    ∷ provider (
        endpoint ("https://codesandbox.io/s/*" ∷ "https://codesandbox.io/embed/*" ∷ [])
          "https://codesandbox.io/oembed" false
        ∷ [])
    ∷ provider (
        endpoint ("http://www.collegehumor.com/video/*" ∷ [])
          "http://www.collegehumor.com/oembed.{format}" true
        ∷ [])
    ∷ []
