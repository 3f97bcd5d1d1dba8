-- ===== src/Providers/Registry.antt =====
-- The provider registry, asb_api/providers/__init__.py, Brightdata, asb_api/providers/brightdata.py,
-- and the choice of the primary and the fallback at startup, asb_api/__main__.py. The answers of
-- Brightdata's API are a parameter.
pub mod Startup
pub mod Lifecycle
use asb_cloud_api.Base.{
  ℕ, String, Bool, false, ◌==◌, ◌||◌, Option, none, some, List, [], ◌∷◌, nat_eq, string_eq,
  if◌then◌else◌,
}
use asb_cloud_api.Base.Int.{ℤ, pos}
use asb_cloud_api.Base.Dict.{Dict, lookup, insert}
use asb_cloud_api.Http.{Result, ok, err, other_error, pool_exhausted}
use asb_cloud_api.Providers.{ProxyConfig}
use asb_cloud_api.Providers.Custom.{ProxyCfg}

-- A provider's section of the configuration; a missing key is `none`.
pub record ProviderCfg : Type 0 where
  pub enabled : Option Bool
  pub proxies : Option (List ProxyCfg)
  pub api_key : Option String
  pub pool_size : Option ℕ
  pub regions : Option (List String)
  pub default_region : Option String
  pub zones : Option (List String)

-- The providers that the registry makes, with the arguments of their constructors.
pub data Entry : Type 0 where
  null_provider : Entry
  custom_provider : List ProxyCfg → Entry
  decodo_provider : String → ℕ → List String → String → Entry
  brightdata_provider : String → List String → Entry

-- `d.get(k, default)` of a key that may be missing.
abbrev pub or_default {ℓ} : {A : Type ℓ} → A → Option A → A
or_default a none = a
or_default a (some b) = b

-- The branches on the name; any other name registers nothing.
unfoldable pub entry_of : String → ProviderCfg → Option Entry
entry_of name cfg =
    if name == "null"
    then some null_provider
    else (if name == "custom"
        then some (custom_provider (or_default [] cfg.proxies))
        else (if name == "decodo"
            then some (
                decodo_provider (or_default "" cfg.api_key) (or_default 10 cfg.pool_size)
                  (or_default ("jp" ∷ "us" ∷ "eu" ∷ []) cfg.regions)
                  (or_default "jp" cfg.default_region))
            else (if name == "brightdata"
                then some (
                    brightdata_provider (or_default "" cfg.api_key)
                      (or_default ("residential" ∷ []) cfg.zones))
                else none)))

-- What a section registers.
abbrev pub registered : String → ProviderCfg → Option Entry
registered name cfg = if or_default false cfg.enabled then entry_of name cfg else none

abbrev pub add_entry : String → Option Entry → Dict String Entry → Dict String Entry
add_entry name none providers = providers
add_entry name (some entry) providers = insert name entry providers

unfoldable pub initialize_from_config :
    Dict String ProviderCfg → Dict String Entry → Dict String Entry
initialize_from_config [] providers = providers
initialize_from_config ((name, cfg) ∷ config) providers =
    initialize_from_config config (add_entry name (registered name cfg) providers)

-- `get`, which raises a KeyError for a name that is not registered.
unfoldable pub get : String → Dict String Entry → Result Entry
get name providers = elim (lookup name providers) [
  | none ↦ err (other_error "KeyError")
  | some entry ↦ ok entry
]

-- `list_providers`
unfoldable pub list_providers : Dict String Entry → List String
list_providers [] = []
list_providers ((name, _) ∷ providers) = name ∷ list_providers providers

-- The primary, or else the fallback alone, or else null. A registry without null raises a KeyError
-- where it comes to that.
unfoldable pub pick {ℓ} : {V : Type ℓ} → Option V → Option V → Option V → Result (V × Option V)
pick (some primary) fallback null_breaker = ok (primary, fallback)
pick none (some fallback) null_breaker = ok (fallback, none)
pick none none (some null_breaker) = ok (null_breaker, none)
pick none none none = err (other_error "KeyError")

-- The choice among the breakers of all registered providers.
unfoldable pub choose {ℓ} : {V : Type ℓ} → Dict String V → String → String → Result (V × Option V)
choose breakers primary_name fallback_name =
    let fallback =
      if fallback_name == "" || fallback_name == primary_name
      then none
      else lookup fallback_name breakers in
    pick (lookup primary_name breakers) fallback (lookup "null" breakers)

-- The JSON of an answer with status 200; a missing key is `none`.
pub record Credentials : Type 0 where
  pub host : Option String
  pub port : Option ℤ
  pub username : Option String
  pub password : Option String
  pub session_id : Option String

-- What the API answers for a zone and a country: an exception, another status, or credentials.
abbrev pub ZoneApi : Type 0
ZoneApi = String → Option String → Result (Option Credentials)

unfoldable pub proxy_of_creds : Option String → Credentials → ProxyConfig
proxy_of_creds country data' = record {
  host = or_default "" data'.host;
  port = or_default (pos 22225) data'.port;
  username = data'.username;
  password = data'.password;
  protocol = "http";
  region = country;
  sticky = false;
  session_token = data'.session_id;
}

-- `_get_zone_creds`
unfoldable pub get_zone_creds : ZoneApi → String → Option String → Result (Option ProxyConfig)
get_zone_creds api zone country = elim (api zone country) [
  | err e ↦ err e
  | ok none ↦ ok none
  | ok (some data') ↦ ok (some (proxy_of_creds country data'))
]

-- `BrightDataProvider.get_proxy`
unfoldable pub get_brightdata : ZoneApi → Option String → List String → Result ProxyConfig
get_brightdata api region [] = err (pool_exhausted "No BrightData proxies available")
get_brightdata api region (zone ∷ zones) =
    let rest = get_brightdata api region zones in
    elim (get_zone_creds api zone region) [
      | err e ↦ err e
      | ok none ↦ rest
      | ok (some proxy) ↦ ok proxy
    ]
