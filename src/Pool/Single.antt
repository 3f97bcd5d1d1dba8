-- ===== src/Pool/Single.antt =====
-- `WorkerPool`, the pool without regions of asb_api/workers/pool.py. Its semaphore, its lock and its
-- workers are the record of a region's pool; a lease only marks the worker as busy.
use asb_cloud_api.Base.{
  ◌≡◌, inl, inr, ℕ, zero, suc, ◌≤◌, true, false, Option, none, some, List, [], ◌∷◌, arith,
  Option-cases, nat_eq, if◌then◌else◌,
}
use asb_cloud_api.Http.{Result, ok, err, Exc, runtime_error}
use asb_cloud_api.Pool.{Worker, RegionPool, acquire_permit, release_permit}

-- The loop over the workers.
unfoldable pub lease_idle : List Worker → Option (ℕ × List Worker)
lease_idle [] = none
lease_idle (w ∷ ws) =
    let rest = lease_idle ws in
    if w.busy
    then elim rest [ none ↦ none | some (i, ws') ↦ some (suc i, w ∷ ws') ]
    else some (0, record w { busy = true } ∷ ws)

-- `worker._busy = False`
unfoldable pub set_free : ℕ → List Worker → List Worker
set_free i [] = []
set_free zero (w ∷ ws) = record w { busy = false } ∷ ws
set_free (suc i) (w ∷ ws) = w ∷ set_free i ws

-- What `acquire` does with its permit.
unfoldable pub take_idle : RegionPool → Result ℕ × RegionPool
take_idle p = elim (lease_idle p.workers) [
  | some (i, ws) ↦ (ok i, record p { workers = ws })
  | none ↦ elim (release_permit p) [
    | ok p' ↦
        (err (runtime_error "WorkerPool semaphore acquired but no idle worker was available"), p')
    | err e ↦ (err e, p)
  ]
]

-- `acquire` with no other task in between; `none` as long as the caller has to wait.
unfoldable pub acquire_single : RegionPool → Option (Result ℕ × RegionPool)
acquire_single p = elim (acquire_permit p) [ none ↦ none | some p' ↦ some (take_idle p') ]

-- `release`: the worker is free also if the semaphore then raises.
unfoldable pub release_single : ℕ → RegionPool → Option Exc × RegionPool
release_single i p =
    let marked = record p { workers = set_free i p.workers } in
    elim (release_permit marked) [ ok p' ↦ (none, p') | err e ↦ (some e, marked) ]

set_free-lease_idle :
    (ws ws' : List Worker) (i : ℕ) → lease_idle ws ≡ some (i, ws') → set_free i ws' ≡ ws
unfolding lease_idle set_free
set_free-lease_idle [] ws' i leased = cc leased
set_free-lease_idle (w ∷ ws) ws' i leased = elim (Option-cases (lease_idle ws)) [
  | inl full ↦ ground arith
  | inr ((j, vs), e) ↦ ground (arith, set_free-lease_idle ws vs j e)
]

-- A worker that is acquired and then released leaves the pool as it was.
pub release_single-acquire_single :
    (p p' : RegionPool) (i : ℕ)
    → p.value ≤ p.bound
    → acquire_single p ≡ some (ok i, p')
    → release_single i p' ≡ (none, p)
unfolding acquire_single take_idle release_single acquire_permit release_permit
release_single-acquire_single p p' i sound leased = elim (Option-cases (lease_idle p.workers)) [
  | inl full ↦ ground arith
  | inr ((j, vs), e) ↦ ground (arith, set_free-lease_idle p.workers vs j e)
]
