-- ===== src/Oembed/Providers.antt =====
-- api/oembed/providers.go: `providersJSON`, in the order of the source.
mod Part01
mod Part02
mod Part03
mod Part04
mod Part05
mod Part06
mod Part07
mod Part08
mod Part09
mod Part10
mod Part11
mod Part12
mod Part13
mod Part14
mod Part15
mod Part16
mod Part17
mod Part18
mod Part19
mod Part20
mod Part21
use youtube_ar.Base.{List, ◌++◌}
use youtube_ar.Oembed.Load.{ProviderResource, Provider, load_providers}
use youtube_ar.Oembed.Providers.Part01.{providers_01}
use youtube_ar.Oembed.Providers.Part02.{providers_02}
use youtube_ar.Oembed.Providers.Part03.{providers_03}
use youtube_ar.Oembed.Providers.Part04.{providers_04}
use youtube_ar.Oembed.Providers.Part05.{providers_05}
use youtube_ar.Oembed.Providers.Part06.{providers_06}
use youtube_ar.Oembed.Providers.Part07.{providers_07}
use youtube_ar.Oembed.Providers.Part08.{providers_08}
use youtube_ar.Oembed.Providers.Part09.{providers_09}
use youtube_ar.Oembed.Providers.Part10.{providers_10}
use youtube_ar.Oembed.Providers.Part11.{providers_11}
use youtube_ar.Oembed.Providers.Part12.{providers_12}
use youtube_ar.Oembed.Providers.Part13.{providers_13}
use youtube_ar.Oembed.Providers.Part14.{providers_14}
use youtube_ar.Oembed.Providers.Part15.{providers_15}
use youtube_ar.Oembed.Providers.Part16.{providers_16}
use youtube_ar.Oembed.Providers.Part17.{providers_17}
use youtube_ar.Oembed.Providers.Part18.{providers_18}
use youtube_ar.Oembed.Providers.Part19.{providers_19}
use youtube_ar.Oembed.Providers.Part20.{providers_20}
use youtube_ar.Oembed.Providers.Part21.{providers_21}

abbrev pub providers_json : List ProviderResource
providers_json =
    (providers_01
      ++ (providers_02
          ++ (providers_03
              ++ (providers_04
                  ++ (providers_05
                      ++ (providers_06
                          ++ (providers_07
                              ++ (providers_08
                                  ++ (providers_09
                                      ++ (providers_10
                                          ++ (providers_11
                                              ++ (providers_12
                                                  ++ (providers_13
                                                      ++ (providers_14
                                                          ++ (providers_15
                                                            ++ (providers_16
                                                            ++ (providers_17
                                                            ++ (providers_18
                                                            ++ (providers_19
                                                            ++ (providers_20
                                                            ++ (providers_21)))))))))))))))))))))

-- What the client keeps once the table is loaded.
unfoldable pub known_providers : List Provider
unfolding load_providers
known_providers = load_providers providers_json
