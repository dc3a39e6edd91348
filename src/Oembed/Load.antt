-- ===== src/Oembed/Load.antt =====
-- api/oembed/providers.go: the decoded table of providers, and `loadProviders`.
use youtube_ar.Base.{String, List, [], ◌∷◌, ◌++◌, map, Bool}

-- The part of an entry that is read. The keys `provider_name` and `provider_url` fit no field of
-- `providerResource`, so its names stay empty.
pub record EndpointResource : Type 0 where
  pub schemes : List String
  pub url : String
  pub discovery : Bool

pub record ProviderResource : Type 0 where
  pub endpoints : List EndpointResource

abbrev pub endpoint : List String → String → Bool → EndpointResource
endpoint schemes url discovery = record { schemes = schemes; url = url; discovery = discovery }

abbrev pub provider : List EndpointResource → ProviderResource
provider endpoints = record { endpoints = endpoints }

-- A URL is kept by its text: url.Parse succeeds on each of the table, or the program panics.
pub record Endpoint : Type 0 where
  pub url : String
  pub discovery : Bool

pub record Provider : Type 0 where
  pub pattern : String
  pub endpoint : Endpoint

abbrev pub scheme_provider : EndpointResource → String → Provider
scheme_provider e s = record {
  pattern = s;
  endpoint = record { url = e.url; discovery = e.discovery };
}

abbrev pub load_endpoints : List EndpointResource → List Provider → List Provider
load_endpoints [] rest = rest
load_endpoints (e ∷ es) rest = map (scheme_provider e) e.schemes ++ load_endpoints es rest

unfoldable pub load_providers : List ProviderResource → List Provider
load_providers [] = []
load_providers (p ∷ ps) = load_endpoints p.endpoints (load_providers ps)
