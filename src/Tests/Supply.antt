-- ===== src/Tests/Supply.antt =====
-- Worker pools, proxies, fingerprints and workers at concrete inputs.
use native.Mathlib.Decide.{ℕ_discrete}
use asb_cloud_api.Base.{
  ◌≡◌, refl, ◌≢◌, ◌↔◌, ℕ, ◌+◌, true, false, none, some, List, [], ◌∷◌, arith, contains, All, leb,
  string_eq, if◌then◌else◌,
}
use asb_cloud_api.Base.Int.{pos}
use asb_cloud_api.Http.{ok, err, pool_exhausted}
use asb_cloud_api.Pool.{Worker, new_region, acquire_permit, take_worker, lease_first, region_status}
use asb_cloud_api.Pool.Marks.{Leases}
use asb_cloud_api.Pool.Leases.{
  State, start, permit, lease, Reach, here, next, Reach-take_worker, Reach-region_status,
}
use asb_cloud_api.Providers.{Provider, proxy_at, null_provider}
use asb_cloud_api.Providers.Breaker.{up, down, Breaker, new_breaker, get_proxy}
use asb_cloud_api.Providers.Breaker.Laws.{run, calls, Fails, run_trips, get_proxy_recovers}
use asb_cloud_api.Providers.Decodo.{DecodoState, Pools}
use asb_cloud_api.Providers.Decodo.Leases.{AllDistinct, lease_keys, lease_keys_distinct}
use asb_cloud_api.Fingerprint.{Fingerprint}

-- A region with one worker, after a task has its permit, and after it has its worker.
abbrev one_permit : State
one_permit = record {
  pool = record {
    value = 0;
    bound = 1;
    workers = record { busy = false; lease_region = none } ∷ [];
  };
  pending = 1;
}

abbrev one_lease : State
one_lease = record {
  pool = record {
    value = 0;
    bound = 1;
    workers = record { busy = true; lease_region = some "us" } ∷ [];
  };
  pending = 0;
}

Reach-permit : Reach "us" (start 1) one_permit
unfolding new_region acquire_permit ℕ_discrete
Reach-permit = next here (permit one_permit.pool refl refl)

Reach-lease : Reach "us" (start 1) one_lease
unfolding take_worker lease_first
Reach-lease = next Reach-permit (lease 0 refl refl)

Reach-take_worker_example :
    (i : ℕ) × (ws : List Worker) × (take_worker "us" one_permit.pool
      ≡ (ok i, record one_permit.pool { workers = ws }))
    × Leases "us" one_permit.pool.workers i ws
Reach-take_worker_example = Reach-take_worker "us" 1 {s = one_permit} {n = 0} Reach-permit refl

Reach-region_status_example :
    ((region_status one_lease.pool).active + (region_status one_lease.pool).idle ≡ 1)
    × ((acquire_permit one_lease.pool ≡ none) ↔ (0 + (region_status one_lease.pool).active ≡ 1))
Reach-region_status_example = Reach-region_status "us" 1 {s = one_lease} Reach-lease

-- A provider without proxies.
abbrev poor : Provider
poor = record {
  State = Unit {0};
  name = "poor";
  get_proxy = λ region s. (err (pool_exhausted "none left"), s);
  release_proxy = λ proxy s. s;
  health_check = λ s. (ok true, s);
}

abbrev closed : (P : Provider) → P.State → Breaker P
closed P s = record {
  failure_threshold = 3;
  recovery_timeout = 60;
  failures = 3;
  last_failure = some 1000000;
  state = down;
  provider = s;
}

poor-Fails : Fails poor
poor-Fails region s = ("none left", refl)

run_trips_example :
    (run poor
      (calls poor ((none, 5, 6) ∷ (none, 7, 8) ∷ (none, 9, 10) ∷ []))
      (new_breaker poor 3 60 tt)).state
    ≡ (if leb 3 (0 + 3) then down else up)
unfolding new_breaker
run_trips_example =
    run_trips poor poor-Fails ((none, 5, 6) ∷ (none, 7, 8) ∷ (none, 9, 10) ∷ [])
      (new_breaker poor 3 60 tt) refl (omega arith) (omega arith)

one-ne-zero : ◌≢◌ {A = ℕ} 1000000 0
one-ne-zero = ground arith

get_proxy_recovers_example :
    let (result, b') = get_proxy null_provider none 70000000 70000001 (closed null_provider tt) in
    (result ≡ ok (proxy_at "DIRECT" (pos 0)))
    × (b'.provider ≡ tt)
    × (b'.state ≡ up)
    × (b'.failures ≡ 0)
get_proxy_recovers_example =
    get_proxy_recovers null_provider none 70000000 70000001 1000000 (closed null_provider tt)
      (proxy_at "DIRECT" (pos 0)) refl refl one-ne-zero (omega arith) refl

-- A pool with two proxies of one region, the first of them in use.
abbrev pools : Pools
pools = ("us", proxy_at "a" (pos 1) ∷ proxy_at "b" (pos 2) ∷ []) ∷ []

abbrev decodo : DecodoState
decodo = record { default_region = "us"; proxies = pools; in_use = "a:1" ∷ []; last_refresh = 0 }

lease_keys_distinct_example :
    AllDistinct (lease_keys (none ∷ some "us" ∷ some "eu" ∷ []) decodo)
    × All
        (λ k. contains decodo.in_use k ≡ false)
        (lease_keys (none ∷ some "us" ∷ some "eu" ∷ []) decodo)
lease_keys_distinct_example = lease_keys_distinct (none ∷ some "us" ∷ some "eu" ∷ []) decodo

abbrev default_fingerprint : Fingerprint
default_fingerprint = record {
  user_agent = [];
  viewport = (pos 1920, pos 1080);
  webgl_vendor = "";
  canvas = "off";
  accept_language = none;
  platform = none;
}
