-- ===== src/Pool/Leases.antt =====
-- Leases of one region under any interleaving of tasks. Between its permit and its worker a task
-- waits for the lock; `pending` counts those tasks.
use asb_cloud_api.Base.{
  ◌≡◌, ◌↔◌, ℕ, suc, ◌+◌, ◌-◌, ◌<◌, String, true, none, some, List, arith, length, length-replicate,
  nat_eq,
}
use asb_cloud_api.Http.{ok}
use asb_cloud_api.Pool.{
  Worker, RegionPool, new_region, acquire_permit, release_permit, take_worker, set_idle,
  release_worker, region_status, idle_worker,
}
use asb_cloud_api.Pool.Marks.{
  busy_count, is_busy, Leases, lease_first-Leases, busy_count-set_idle, length-set_idle,
  busy_count-idle, busy_count-le-length,
}

-- A region's pool, and the tasks that hold a permit and wait for the lock.
pub record State : Type 0 where
  pub pool : RegionPool
  pub pending : ℕ

abbrev pub start : ℕ → State
start size = record { pool = new_region size; pending = 0 }

-- One step of some task: it gets a permit, it gets the lock, or it gives a leased worker back.
pub data Step (region : String) (s t : State) : Type 0 where
  permit :
      (p : RegionPool)
      → acquire_permit s.pool ≡ some p
      → t ≡ record { pool = p; pending = suc s.pending }
      → Step region s t
  lease :
      (n : ℕ)
      → s.pending ≡ suc n
      → t ≡ record { pool = (take_worker region s.pool).1; pending = n }
      → Step region s t
  give_back :
      (i : ℕ)
      → is_busy i s.pool.workers ≡ true
      → t ≡ record { pool = (release_worker i s.pool).1; pending = s.pending }
      → Step region s t

pub data Reach (region : String) (s : State) : State → Type 0 where
  here : Reach region s s
  next : {t u : State} → Reach region s t → Step region t u → Reach region s u

-- Permits, waiting tasks and busy workers add up to the size of the region.
pub record IsBalanced (s : State) : Type 0 where
  pub balanced : s.pool.value + s.pending + busy_count s.pool.workers ≡ s.pool.bound
  pub complete : length s.pool.workers ≡ s.pool.bound

start-IsBalanced : (size : ℕ) → IsBalanced (start size)
unfolding new_region
start-IsBalanced size = record {
  balanced = omega (arith, busy_count-idle size);
  complete = length-replicate size idle_worker;
}

acquire_permit-some :
    (p p' : RegionPool)
    → acquire_permit p ≡ some p'
    → (0 < p.value) × (p' ≡ record p { value = p.value - 1 })
unfolding acquire_permit
acquire_permit-some p p' h = ground arith

module _ (region : String) where
  -- A task that holds its permit finds an idle worker: the lease succeeds.
  take_worker-Leases :
      (s : State) (n : ℕ)
      → IsBalanced s
      → s.pending ≡ suc n
      → (i : ℕ) × (ws : List Worker) × (take_worker region s.pool
          ≡ (ok i, record s.pool { workers = ws }))
        × Leases region s.pool.workers i ws
  unfolding take_worker
  take_worker-Leases s n b waiting =
      let (i, ws, found, l) =
        lease_first-Leases region s.pool.workers (omega (arith, b.balanced, b.complete)) in
      (i, ws, rw (found, take_worker), l)

  -- A worker that is leased goes back without an error.
  release_worker-none :
      (s : State) (i : ℕ)
      → IsBalanced s
      → is_busy i s.pool.workers ≡ true
      → release_worker i s.pool
        ≡ (none, record s.pool { value = s.pool.value + 1; workers = set_idle i s.pool.workers })
  unfolding release_worker release_permit
  release_worker-none s i b busy = ground (arith, busy_count-set_idle i s.pool.workers, b.balanced)

  Step-IsBalanced : (s t : State) → Step region s t → IsBalanced s → IsBalanced t
  Step-IsBalanced s t (permit p got same) b =
      let (positive, moved) = acquire_permit-some s.pool p got in
      rw (same, moved) record { balanced = omega (arith, b.balanced); complete = b.complete }
  Step-IsBalanced s t (lease n waiting same) b =
      let (i, ws, taken, l) = take_worker-Leases s n b waiting in
      rw (same, taken)
        record {
          balanced = omega (arith, b.balanced, l.counted);
          complete = omega (arith, b.complete, l.same_length);
        }
  Step-IsBalanced s t (give_back i busy same) b =
      rw (same, release_worker-none s i b busy)
        record {
          balanced = omega (arith, b.balanced, busy_count-set_idle i s.pool.workers busy);
          complete = omega (arith, b.complete, length-set_idle i s.pool.workers);
        }

  pub Reach-IsBalanced : {s t : State} → IsBalanced s → Reach region s t → IsBalanced t
  Reach-IsBalanced b here = b
  Reach-IsBalanced b (next r step) = Step-IsBalanced _ _ step (Reach-IsBalanced b r)

  -- However the tasks of a region interleave, from the start of the pool on: a task that holds its
  -- permit is given a worker that was idle, which alone changes and is marked as leased to the
  -- region; so no worker is leased twice, and the error for a missing worker is never raised.
  pub Reach-take_worker :
      (size : ℕ) {s : State} {n : ℕ}
      → Reach region (start size) s
      → s.pending ≡ suc n
      → (i : ℕ) × (ws : List Worker) × (take_worker region s.pool
          ≡ (ok i, record s.pool { workers = ws }))
        × Leases region s.pool.workers i ws
  Reach-take_worker size {s} {n} r waiting =
      take_worker-Leases s n (Reach-IsBalanced (start-IsBalanced size) r) waiting

  -- In every state so reached, the release of a busy worker raises nothing, frees its permit and
  -- leaves it idle.
  Reach-release_worker :
      (size i : ℕ) {s : State}
      → Reach region (start size) s
      → is_busy i s.pool.workers ≡ true
      → release_worker i s.pool
        ≡ (none, record s.pool { value = s.pool.value + 1; workers = set_idle i s.pool.workers })
  Reach-release_worker size i {s} r busy =
      release_worker-none s i (Reach-IsBalanced (start-IsBalanced size) r) busy

  -- In every state so reached, the status counts all the workers of the region, and a caller waits
  -- exactly when every worker is busy or promised to a task that holds a permit.
  pub Reach-region_status :
      (size : ℕ) {s : State}
      → Reach region (start size) s
      → ((region_status s.pool).active + (region_status s.pool).idle ≡ s.pool.bound)
        × ((acquire_permit s.pool ≡ none)
            ↔ (s.pending + (region_status s.pool).active ≡ s.pool.bound))
  unfolding region_status acquire_permit
  Reach-region_status size {s} r =
      let b = Reach-IsBalanced (start-IsBalanced size) r in
      (
        omega (arith, b.complete, busy_count-le-length s.pool.workers),
        (ground (arith, b.balanced), ground (arith, b.balanced)),
      )
