-- ===== src/Providers/Decodo.antt =====
-- The pool of leased proxies: asb_api/providers/decodo.py. What the web API answers is a parameter:
-- `none` for an exception or another status than 200.
pub mod Leases
pub mod Refresh
use asb_cloud_api.Base.{
  String, ◌<>◌, Bool, false, not, Option, none, some, List, [], ◌∷◌, ◌++◌, map, ◌==◌, contains,
  keep_if, string_eq, if◌then◌else◌, ℕ,
}
use asb_cloud_api.Base.Int.{ℤ}
use asb_cloud_api.Base.Dict.{Dict, get_or, insert}
use asb_cloud_api.Base.Text.{str_int}
use asb_cloud_api.Http.{Result, ok, err, pool_exhausted}
use asb_cloud_api.Providers.{ProxyConfig, Provider}

-- One entry of the API's `proxy` list.
pub record ProxyEntry : Type 0 where
  pub host : String
  pub port : ℤ
  pub username : Option String
  pub password : Option String

abbrev pub Pools : Type 0
Pools = Dict String (List ProxyConfig)

unfoldable proxy_of : String → ProxyEntry → ProxyConfig
proxy_of region p = record {
  host = p.host;
  port = p.port;
  username = p.username;
  password = p.password;
  protocol = "http";
  region = some region;
  sticky = false;
  session_token = none;
}

-- `pools.setdefault(region, []).append(proxy)` for each entry.
unfoldable add_entries : String → List ProxyEntry → Pools → Pools
add_entries region [] pools = pools
add_entries region (p ∷ ps) pools =
    add_entries region ps (insert region (get_or region [] pools ++ (proxy_of region p ∷ [])) pools)

module _ (api : String → String → Option (List ProxyEntry)) where
  unfoldable fetch_regions : String → List String → Pools → Pools
  fetch_regions zone [] pools = pools
  fetch_regions zone (region ∷ regions) pools =
      fetch_regions zone regions
        (elim (api zone region) [ none ↦ pools | some entries ↦ add_entries region entries pools ])

  unfoldable fetch_zones : List String → List String → Pools → Pools
  fetch_zones [] regions pools = pools
  fetch_zones (zone ∷ zones) regions pools =
      fetch_zones zones regions (fetch_regions zone regions pools)

  unfoldable pub fetch_pool : List String → Pools
  unfolding fetch_zones fetch_regions add_entries proxy_of
  fetch_pool regions = fetch_zones ("residential" ∷ "isp" ∷ "mobile" ∷ []) regions []

unfoldable pub proxy_key : ProxyConfig → String
proxy_key proxy = proxy.host <> (":" <> str_int proxy.port)

-- `_proxies`, `_in_use`, `default_region` and `_last_refresh`. The set is a list without order.
pub record DecodoState : Type 0 where
  pub default_region : String
  pub proxies : Pools
  pub in_use : List String
  pub last_refresh : ℕ

unfoldable pub pool_keys : Pools → List String
pool_keys [] = []
pool_keys ((_, proxies) ∷ pools) = map proxy_key proxies ++ pool_keys pools

pub replace_pool : Pools → ℕ → DecodoState → DecodoState
replace_pool new_pools now s = record s {
  proxies = new_pools;
  in_use = keep_if (contains (pool_keys new_pools)) s.in_use;
  last_refresh = now;
}

-- The first region's proxies, taken where the wanted region has none.
unfoldable pub first_proxies : Pools → List ProxyConfig
first_proxies [] = []
first_proxies ((_, proxies) ∷ _) = proxies

unfoldable pub candidates : String → Pools → List ProxyConfig
candidates region pools = elim (get_or region [] pools) [
  | [] ↦ first_proxies pools
  | p ∷ ps ↦ p ∷ ps
]

-- The loop that takes the first proxy not in use.
unfoldable pub first_free : List String → List ProxyConfig → Option ProxyConfig
first_free in_use [] = none
first_free in_use (proxy ∷ proxies) =
    let rest = first_free in_use proxies in
    if contains in_use (proxy_key proxy) then rest else some proxy

-- `region or self.default_region`
unfoldable pub wanted_region : Option String → DecodoState → String
wanted_region none s = s.default_region
wanted_region (some region) s = if region == "" then s.default_region else region

abbrev pub lease_found :
    String → DecodoState → Option ProxyConfig → Result ProxyConfig × DecodoState
lease_found region s none =
    (err (pool_exhausted ("All Decodo proxies in use for region=" <> region)), s)
lease_found region s (some proxy) = (ok proxy, record s { in_use = proxy_key proxy ∷ s.in_use })

unfoldable pub lease_from :
    String → List ProxyConfig → DecodoState → Result ProxyConfig × DecodoState
lease_from region [] s =
    (err (pool_exhausted ("No Decodo proxies available for region=" <> region)), s)
lease_from region (p ∷ ps) s = lease_found region s (first_free s.in_use (p ∷ ps))

unfoldable pub get_decodo : Option String → DecodoState → Result ProxyConfig × DecodoState
get_decodo region s =
    let name = wanted_region region s in lease_from name (candidates name s.proxies) s

unfoldable pub release_decodo : ProxyConfig → DecodoState → DecodoState
release_decodo proxy s = record s {
  in_use = keep_if (λ key. not (key == proxy_key proxy)) s.in_use;
}

-- The provider; `healthy` is what its status page answers.
abbrev pub decodo_provider : (DecodoState → Result Bool) → Provider
decodo_provider healthy = record {
  State = DecodoState;
  name = "decodo";
  get_proxy = get_decodo;
  release_proxy = release_decodo;
  health_check = λ s. (healthy s, s);
}
