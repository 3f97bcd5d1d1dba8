-- ===== src/Pool.antt =====
-- The worker pools of asb_api/workers/pool.py: here `RegionWorkerPool`. A worker is named by the region
-- whose list it stands in and its place there; it is reduced to what a lease changes.
-- A region's semaphore, its lock and its workers are one record.
pub mod Marks
pub mod Leases
pub mod Single
pub mod Lifecycle
use asb_cloud_api.Base.{
  ℕ, zero, suc, ◌+◌, ◌-◌, String, Bool, true, false, Option, none, some, List, [], ◌∷◌, map, ◌==◌,
  ltb, length, get_elem?, replicate, count_if, string_eq, nat_eq, if◌then◌else◌,
}
use asb_cloud_api.Base.Dict.{Dict, lookup, has_key, insert}
use asb_cloud_api.Http.{Result, ok, err, Exc, runtime_error, value_error, other_error}

-- `_busy` and `_lease_region` of a worker.
pub record Worker : Type 0 where
  pub busy : Bool
  pub lease_region : Option String

-- `asyncio.BoundedSemaphore`: a release above the initial value raises `ValueError`.
pub record RegionPool : Type 0 where
  pub value : ℕ
  pub bound : ℕ
  pub workers : List Worker

abbrev idle_worker : Worker
idle_worker = record { busy = false; lease_region = none }

unfoldable pub new_region : ℕ → RegionPool
new_region size = record { value = size; bound = size; workers = replicate size idle_worker }

-- `await semaphore.acquire()`: `none` as long as the caller has to wait.
unfoldable pub acquire_permit : RegionPool → Option RegionPool
acquire_permit p = if p.value == 0 then none else some (record p { value = p.value - 1 })

unfoldable pub release_permit : RegionPool → Result RegionPool
release_permit p =
    if ltb p.value p.bound
    then ok (record p { value = p.value + 1 })
    else err (value_error "BoundedSemaphore released too many times")

-- The loop over the workers: the place of the first idle one, and the list with that one leased.
unfoldable pub lease_first : String → List Worker → Option (ℕ × List Worker)
lease_first region [] = none
lease_first region (w ∷ ws) =
    let rest = lease_first region ws in
    if w.busy
    then elim rest [ none ↦ none | some (i, ws') ↦ some (suc i, w ∷ ws') ]
    else some (0, record { busy = true; lease_region = some region } ∷ ws)

-- What `acquire` does with its permit: it leases a worker, or gives the permit back and raises.
unfoldable pub take_worker : String → RegionPool → Result ℕ × RegionPool
unfolding lease_first
take_worker region p = elim (lease_first region p.workers) [
  | some (i, ws) ↦ (ok i, record p { workers = ws })
  | none ↦ elim (release_permit p) [
    | ok p' ↦ (err (runtime_error "semaphore acquired but no idle worker was available"), p')
    | err e ↦ (err e, p)
  ]
]

unfoldable pub set_idle : ℕ → List Worker → List Worker
set_idle i [] = []
set_idle zero (w ∷ ws) = idle_worker ∷ ws
set_idle (suc i) (w ∷ ws) = w ∷ set_idle i ws

-- `release` of a worker that is leased from its own region: the worker is idle also if the
-- semaphore then raises.
unfoldable pub release_worker : ℕ → RegionPool → Option Exc × RegionPool
release_worker i p =
    let marked = record p { workers = set_idle i p.workers } in
    elim (release_permit marked) [ ok p' ↦ (none, p') | err e ↦ (some e, marked) ]

pub record RegionWorkerPool : Type 0 where
  pub default_region : String
  pub regions : Dict String RegionPool

pub record WorkerId : Type 0 where
  pub home : String
  pub index : ℕ

unfoldable build_regions : List (String × ℕ) → Dict String RegionPool
build_regions [] = []
build_regions ((region, size) ∷ rest) = (region, new_region size) ∷ build_regions rest

-- The constructor. `workers_per_region` is a dict, so no region stands in it twice.
unfoldable pub new_pool : List (String × ℕ) → String → RegionWorkerPool
unfolding build_regions
new_pool workers_per_region default_region = record {
  default_region = default_region;
  regions = build_regions workers_per_region;
}

-- `region or default`
abbrev or_text : Option String → String → String
or_text none default = default
or_text (some s) default = if s == "" then default else s

unfoldable pub normalize_region : RegionWorkerPool → Option String → String
normalize_region pool region =
    let wanted = or_text region pool.default_region in
    if has_key wanted pool.regions then wanted else pool.default_region

-- What `acquire` comes to.
pub data Acquired : Type 0 where
  waits : Acquired
  leased : WorkerId → RegionWorkerPool → Acquired
  failed : Exc → RegionWorkerPool → Acquired

abbrev with_region : String → RegionPool → RegionWorkerPool → RegionWorkerPool
with_region name p pool = record pool { regions = insert name p pool.regions }

unfoldable acquired_in : RegionWorkerPool → String → Result ℕ × RegionPool → Acquired
acquired_in pool name (ok i, p) =
    leased (record { home = name; index = i }) (with_region name p pool)
acquired_in pool name (err e, p) = failed e (with_region name p pool)

-- `acquire` with no other task in between; `take_worker` and `acquire_permit` are its two halves.
unfoldable pub acquire : Option String → RegionWorkerPool → Acquired
unfolding acquired_in
acquire region pool =
    let name = normalize_region pool region in
    elim (lookup name pool.regions) [
      | none ↦ failed (other_error "KeyError") pool
      | some p ↦ elim (acquire_permit p) [
        | none ↦ waits
        | some p' ↦ acquired_in pool name (take_worker name p')
      ]
    ]

-- The region that a release goes to: the one that the worker was leased under.
unfoldable lease_of : RegionWorkerPool → WorkerId → Option String
lease_of pool id = elim (lookup id.home pool.regions) [
  | none ↦ none
  | some p ↦ elim (get_elem? p.workers id.index) [ none ↦ none | some w ↦ w.lease_region ]
]

unfoldable idle_at_home : WorkerId → RegionWorkerPool → RegionWorkerPool
idle_at_home id pool = elim (lookup id.home pool.regions) [
  | none ↦ pool
  | some p ↦ with_region id.home (record p { workers = set_idle id.index p.workers }) pool
]

unfoldable pub release : WorkerId → Option String → RegionWorkerPool → Option Exc × RegionWorkerPool
unfolding lease_of idle_at_home
release id region pool =
    let name : String = elim (lease_of pool id) [
      | none ↦ normalize_region pool region
      | some r ↦ if r == "" then normalize_region pool region else r
    ] in
    let marked = idle_at_home id pool in
    elim (lookup name marked.regions) [
      | none ↦ (some (other_error "KeyError"), marked)
      | some p ↦ elim (release_permit p) [
        | ok p' ↦ (none, with_region name p' marked)
        | err e ↦ (some e, marked)
      ]
    ]

pub record Status : Type 0 where
  pub active : ℕ
  pub idle : ℕ

pub region_status : RegionPool → Status
region_status p =
    let active = count_if (λ w. w.busy) p.workers in
    record { active = active; idle = length p.workers - active }

unfoldable pub get_status : RegionWorkerPool → Dict String Status
get_status pool = map (λ (region, p). (region, region_status p)) pool.regions
