-- ===== src/Scrape/Region.antt =====
-- A region of `RegionWorkerPool` (asb_api/workers/pool.py) as the pool of the scrape routes. A task that
-- would have to wait is cancelled, in place of the work of others that lets it go on.
use asb_cloud_api.Base.{
  ◌≡◌, refl, sym, ap, ◌∙◌, ℕ, suc, ◌+◌, ◌-◌, ◌≤◌, ◌<◌, String, Bool, true, false, Option, none,
  some, List, [], ◌∷◌, map, arith, ltb, nat_eq, ◌==◌, if◌then◌else◌,
}
use mathlib.Core.Path.{subst}
use asb_cloud_api.Http.{Exc, Result, ok, err, other_error, runtime_error}
use asb_cloud_api.Pool.{
  Worker, RegionPool, WorkerId, acquire_permit, release_permit, lease_first, take_worker, set_idle,
  release_worker,
}
use asb_cloud_api.Models.{ScrapeRequest, ScrapeResponse}
use asb_cloud_api.Scrape.{Backend}
use asb_cloud_api.Scrape.Guards.{Leasing}

module _ (region : String) where
  abbrev pub named : Result ℕ × RegionPool → Result WorkerId × RegionPool
  named (ok i, p) = (ok (record { home = region; index = i }), p)
  named (err e, p) = (err e, p)

  abbrev pub acquired : RegionPool → Option RegionPool → Result WorkerId × RegionPool
  acquired p none = (err (other_error "CancelledError"), p)
  acquired p (some p') = named (take_worker region p')

  -- The region with workers that `run`.
  abbrev pub region_backend :
      {W : Type 0} → (WorkerId → ScrapeRequest → W → Result ScrapeResponse × W) → Backend
  region_backend {W} run = record {
    Pool = RegionPool;
    Workers = W;
    acquire = λ _ p. acquired p (acquire_permit p);
    release = λ worker _ p. release_worker worker.index p;
    run = run;
  }

  abbrev busy_marks : List Worker → List Bool
  busy_marks = map λ w. w.busy

  -- The permits that are left, the size, and the workers in use.
  abbrev pub Seen : Type 0
  Seen = ℕ × ℕ × List Bool

  abbrev pub seen : RegionPool → Seen
  seen p = (p.value, p.bound, map (λ (w : Worker). w.busy) p.workers)

  -- The release of the leased worker restores the marks.
  abbrev Restores : List Worker → Option (ℕ × List Worker) → Type 0
  Restores ws none = Unit
  Restores ws (some (i, ws')) = map (λ (w : Worker). w.busy) (set_idle i ws') ≡ busy_marks ws

  Restores-cons :
      (w : Worker) (ws : List Worker) (found : Option (ℕ × List Worker))
      → Restores ws found
      → Restores (w ∷ ws) (elim found [ none ↦ none | some (i, ws') ↦ some (suc i, w ∷ ws') ])
  unfolding set_idle
  Restores-cons w ws none h = tt
  Restores-cons w ws (some (i, ws')) h = ap (λ (bs : List Bool). w.busy ∷ bs) h

  lease_first-Restores : (ws : List Worker) → Restores ws (lease_first region ws)
  unfolding lease_first set_idle
  lease_first-Restores [] = tt
  lease_first-Restores (w ∷ ws) = by_mark w.busy refl (lease_first-Restores ws)
    where
      leased : Worker
      leased = record { busy = true; lease_region = some region }

      by_mark :
          (b : Bool)
          → w.busy ≡ b
          → Restores ws (lease_first region ws)
          → Restores (w ∷ ws) (
              if b
              then elim (lease_first region ws) [
                | none ↦ none
                | some (i, ws') ↦ some (suc i, w ∷ ws')
              ]
              else some (0, leased ∷ ws))
      by_mark true busy rest = Restores-cons w ws (lease_first region ws) rest
      by_mark false idle rest = ap (λ (b : Bool). b ∷ busy_marks ws) (sym idle)

  -- A worker that was acquired restores the pool with its release; an error leaves it as it was.
  abbrev pub Undone : RegionPool → Result WorkerId × RegionPool → Type 0
  Undone p (ok worker, q) =
      (seen (release_worker worker.index q).1 ≡ seen p) × ((release_worker worker.index q).0 ≡ none)
  Undone p (err e, q) = seen q ≡ seen p

  release_worker-free :
      (i : ℕ) (q : RegionPool)
      → ltb q.value q.bound ≡ true
      → release_worker i q
        ≡ (none, record q { value = q.value + 1; workers = set_idle i q.workers })
  unfolding release_worker release_permit
  release_worker-free i q free = ground arith

  taken-Undone :
      (p : RegionPool) (found : Option (ℕ × List Worker))
      → 0 < p.value
      → p.value ≤ p.bound
      → Restores p.workers found
      → let p' = record p { value = p.value - 1 } in
        Undone p (
          named (elim found as (λ _. Result ℕ × RegionPool) [
            | some (i, ws) ↦ (ok i, record p' { workers = ws })
            | none ↦ elim (release_permit p') [
              | ok q ↦
                  (err (runtime_error "semaphore acquired but no idle worker was available"), q)
              | err e ↦ (err e, p')
            ]
          ]))
  unfolding release_permit
  taken-Undone p none some_left sound h =
      let free : ltb (p.value - 1) p.bound ≡ true = ground arith in
      let back : p.value - 1 + 1 ≡ p.value = omega arith in
      rw free (ap (λ (n : ℕ). (n, p.bound, busy_marks p.workers)) back)
  taken-Undone p (some (i, ws)) some_left sound h =
      let q = record p { value = p.value - 1; workers = ws } in
      let back : p.value - 1 + 1 ≡ p.value = omega arith in
      let given = release_worker-free i q (ground arith) in
      (
        ap (λ (r : Option Exc × RegionPool). seen r.1) given
            ∙ ap (λ (n : ℕ). (n, p.bound, busy_marks (set_idle i ws))) back
            ∙ ap (λ (bs : List Bool). (p.value, p.bound, bs)) h,
        ap (λ (r : Option Exc × RegionPool). r.0) given,
      )

  pub acquired-Undone :
      (p : RegionPool) → p.value ≤ p.bound → Undone p (acquired p (acquire_permit p))
  unfolding acquire_permit take_worker
  acquired-Undone p sound = by_value (p.value == 0) refl
    where
      by_value :
          (b : Bool)
          → (p.value == 0) ≡ b
          → Undone p (acquired p (if b then none else some (record p { value = p.value - 1 })))
      by_value true zero_left = refl
      by_value false some_left =
          taken-Undone p (lease_first region p.workers) (ground arith) sound
            (lease_first-Restores p.workers)

  unfoldable pub region_backend-Leasing :
      {W : Type 0} (run : WorkerId → ScrapeRequest → W → Result ScrapeResponse × W)
      → Leasing (region_backend run)
  region_backend-Leasing run = record {
    Seen = Seen;
    seen = seen;
    IsSound = λ s. s.0 ≤ s.1;
    acquire-release = λ _ p q worker sound h. subst (Undone p) h (acquired-Undone p sound);
    acquire-error = λ _ p q e sound h. subst (Undone p) h (acquired-Undone p sound);
  }
