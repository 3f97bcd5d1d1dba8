-- ===== src/Providers/Decodo/Refresh.antt =====
-- The refresh of the pool of Decodo, asb_api/providers/decodo.py: its task is started and stopped with
-- the provider, and each of its turns replaces the pool by what the API answers.
use asb_cloud_api.Base.{
  ◌≡◌, refl, ℕ, String, Option, none, some, List, [], ◌∷◌, contains, keep_if, string_eq,
}
use asb_cloud_api.Http.{Result, ok, err}
use asb_cloud_api.Providers.{ProxyConfig}
use asb_cloud_api.Providers.Decodo.{
  ProxyEntry, Pools, fetch_regions, fetch_zones, fetch_pool, DecodoState, pool_keys, replace_pool,
  candidates, first_free, wanted_region, lease_from, get_decodo,
}

-- What Decodo's API answers for a zone and a region.
abbrev pub Api : Type 0
Api = String → String → Option (List ProxyEntry)

-- `_refresh_task`: there is none, it runs, or it has ended.
pub data RefreshTask : Type 0 where
  no_task running ended : RefreshTask

pub record Refreshing : Type 0 where
  pub state : DecodoState
  pub task : RefreshTask

-- A turn of `_refresh_loop`; an exception of the fetch is passed over.
unfoldable pub refresh_turn : Result Pools → ℕ → Refreshing → Refreshing
refresh_turn (err _) now r = r
refresh_turn (ok pools) now r = record r { state = replace_pool pools now r.state }

abbrev pub start_task : RefreshTask → Api → List String → ℕ → Refreshing → Refreshing
start_task running api regions now r = r
start_task no_task api regions now r = record {
  state = replace_pool (fetch_pool api regions) now r.state;
  task = running;
}
start_task ended api regions now r = record {
  state = replace_pool (fetch_pool api regions) now r.state;
  task = running;
}

-- `start`: nothing where the task runs.
unfoldable pub start : Api → List String → ℕ → Refreshing → Refreshing
start api regions now r = start_task r.task api regions now r

-- `stop`: a task that there is is cancelled and awaited.
unfoldable pub stop : Refreshing → Refreshing
stop r = record r { task = no_task }

-- The API where every request raises or has another status than 200.
abbrev pub outage : Api
outage zone region = none

fetch_regions-outage :
    (zone : String) (regions : List String) (pools : Pools)
    → fetch_regions outage zone regions pools ≡ pools
unfolding fetch_regions
fetch_regions-outage zone [] pools = refl
fetch_regions-outage zone (region ∷ regions) pools = fetch_regions-outage zone regions pools

fetch_pool-outage : (regions : List String) → fetch_pool outage regions ≡ []
unfolding fetch_pool fetch_zones
fetch_pool-outage regions =
    rw
      (
        fetch_regions-outage "residential" regions [],
        fetch_regions-outage "isp" regions [],
        fetch_regions-outage "mobile" regions [],
      )
      refl

keep_if-none : (marks : List String) → keep_if (contains (pool_keys [])) marks ≡ []
unfolding pool_keys
keep_if-none [] = refl
keep_if-none (k ∷ marks) = keep_if-none marks

-- A turn that meets an outage of the API, and then one that does not.
abbrev pub after_outage : List String → Pools → ℕ → ℕ → Refreshing → Refreshing
after_outage regions pools now later r =
    refresh_turn (ok pools) later (refresh_turn (ok (fetch_pool outage regions)) now r)

-- All marks are gone, and the pool is the new one.
after_outage-state :
    (regions : List String) (pools : Pools) (now later : ℕ) (r : Refreshing)
    → (after_outage regions pools now later r).state
      ≡ record r.state { proxies = pools; in_use = []; last_refresh = later }
unfolding refresh_turn replace_pool
after_outage-state regions pools now later r =
    rw (fetch_pool-outage regions, keep_if-none r.state.in_use) refl

wanted_region-state :
    (region : Option String) (s : DecodoState) (pools : Pools) (later : ℕ)
    → wanted_region region (record s { proxies = pools; in_use = []; last_refresh = later })
      ≡ wanted_region region s
unfolding wanted_region
wanted_region-state none s pools later = refl
wanted_region-state (some region) s pools later = refl

lease_from-unmarked :
    (name : String) (proxy : ProxyConfig) (proxies : List ProxyConfig) (s : DecodoState)
    → (lease_from name (proxy ∷ proxies) (record s { in_use = [] })).0 ≡ ok proxy
unfolding lease_from first_free
lease_from-unmarked name proxy proxies s = refl

-- After a refresh that meets an outage of the API and one that does not, a call leases the first
-- proxy of its region, whatever proxies are in use: one that is out is handed out once more.
pub get_decodo-after_outage :
    (regions : List String) (pools : Pools) (now later : ℕ) (r : Refreshing)
    (region : Option String) (proxy : ProxyConfig) (proxies : List ProxyConfig)
    → candidates (wanted_region region r.state) pools ≡ proxy ∷ proxies
    → (get_decodo region (after_outage regions pools now later r).state).0 ≡ ok proxy
unfolding get_decodo
get_decodo-after_outage regions pools now later r region proxy proxies first =
    rw
      (
        after_outage-state regions pools now later r,
        wanted_region-state region r.state pools later,
        first,
      )
      (lease_from-unmarked (wanted_region region r.state) proxy proxies
        (record r.state { proxies = pools; last_refresh = later }))
