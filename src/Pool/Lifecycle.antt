-- ===== src/Pool/Lifecycle.antt =====
-- The start and the stop of the workers of a pool, asb_api/workers/pool.py: `start_all` and `stop_all`
-- of `WorkerPool` over its workers, and those of `RegionWorkerPool` over the workers of its regions.
use asb_cloud_api.Base.{
  ◌≡◌, refl, ap, ℕ, zero, suc, ◌+◌, Option, none, some, List, [], ◌∷◌, map, replicate, arith,
}
use asb_cloud_api.Http.{Exc}
use asb_cloud_api.Runner.Lifecycle.{
  Playwright, Runner, start_worker, stop_worker, Counted, holds, start_worker-alive,
  stop_worker-alive,
}

module _ {S Driver Browser : Type 0} (p : Playwright S Driver Browser) where
  -- The runners of a list of workers; a worker that was never started has none.
  abbrev pub Workers : Type 0
  Workers = List (Option (Runner p))

  -- The workers of the regions, in the order of the dict.
  abbrev pub Regions : Type 0
  Regions = List Workers

  -- The constructor: `size` workers.
  unfoldable pub new_workers : ℕ → Workers
  new_workers size = replicate size none

  -- One more worker, and the rest of the loop where it did not raise.
  abbrev pub and_workers :
      Workers
      → Option Exc × Option (Runner p) × S
      → (S → Option Exc × Workers × S)
      → Option Exc × Workers × S
  and_workers ws (some e, w, s) rest = (some e, w ∷ ws, s)
  and_workers ws (none, w, s) rest = let (raised, ws', s') = rest s in (raised, w ∷ ws', s')

  -- `start_all` of the workers: the first that raises ends the loop.
  unfoldable pub start_all : Workers → S → Option Exc × Workers × S
  start_all [] s = (none, [], s)
  start_all (_ ∷ ws) s = and_workers ws (start_worker p s) (start_all ws)

  abbrev pub and_stop : Option Exc × S → (S → Option Exc × S) → Option Exc × S
  and_stop (some e, s) rest = (some e, s)
  and_stop (none, s) rest = rest s

  unfoldable pub stop_all : Workers → S → Option Exc × S
  stop_all [] s = (none, s)
  stop_all (w ∷ ws) s = and_stop (stop_worker p w s) (stop_all ws)

  abbrev pub and_regions :
      Regions → Option Exc × Workers × S → (S → Option Exc × Regions × S) → Option Exc × Regions × S
  and_regions regions (some e, ws, s) rest = (some e, ws ∷ regions, s)
  and_regions regions (none, ws, s) rest =
      let (raised, regions', s') = rest s in (raised, ws ∷ regions', s')

  -- `start_all` of the regions.
  unfoldable pub start_regions : Regions → S → Option Exc × Regions × S
  start_regions [] s = (none, [], s)
  start_regions (ws ∷ regions) s = and_regions regions (start_all ws s) (start_regions regions)

  unfoldable pub stop_regions : Regions → S → Option Exc × S
  stop_regions [] s = (none, s)
  stop_regions (ws ∷ regions) s = and_stop (stop_all ws s) (stop_regions regions)

  -- `start_all` of a new pool with regions of these sizes, and then `stop_all`.
  abbrev pub start_and_stop : List ℕ → S → Option Exc × S
  start_and_stop sizes s =
      let (_, regions, s') = start_regions (map new_workers sizes) s in stop_regions regions s'

  -- The processes that workers hold.
  abbrev pub hold : Workers → ℕ
  hold [] = 0
  hold (w ∷ ws) = holds p w + hold ws

  abbrev pub regions_hold : Regions → ℕ
  regions_hold [] = 0
  regions_hold (ws ∷ regions) = hold ws + regions_hold regions

  hold-new_workers : (size : ℕ) → hold (new_workers size) ≡ 0
  unfolding new_workers
  hold-new_workers zero = refl
  hold-new_workers (suc size) = omega (arith, hold-new_workers size)

  regions_hold-new_workers : (sizes : List ℕ) → regions_hold (map new_workers sizes) ≡ 0
  regions_hold-new_workers [] = refl
  regions_hold-new_workers (size ∷ sizes) =
      omega (arith, hold-new_workers size, regions_hold-new_workers sizes)

  module _ (c : Counted p) where
    abbrev Adds : S → Option Exc × Workers × S → Type 0
    Adds s (_, ws, s') = c.alive s' ≡ c.alive s + hold ws

    and_workers-alive :
        (ws : Workers) (s : S) (started : Option Exc × Option (Runner p) × S)
        (rest : S → Option Exc × Workers × S)
        → hold ws ≡ 0
        → c.alive started.2 ≡ c.alive s + holds p started.1
        → ((mid : S) → Adds mid (rest mid))
        → Adds s (and_workers ws started rest)
    and_workers-alive ws s (some e, w, mid) rest fresh one more = omega arith
    and_workers-alive ws s (none, w, mid) rest fresh one more = omega (arith, more mid)

    start_all-alive : (ws : Workers) (s : S) → hold ws ≡ 0 → Adds s (start_all ws s)
    unfolding start_all
    start_all-alive [] s fresh = omega arith
    start_all-alive (w ∷ ws) s fresh =
        let still : hold ws ≡ 0 = omega arith in
        and_workers-alive ws s (start_worker p s) (start_all ws) still (start_worker-alive p c s)
          (λ mid. start_all-alive ws mid still)

    abbrev AddsRegions : S → Option Exc × Regions × S → Type 0
    AddsRegions s (_, regions, s') = c.alive s' ≡ c.alive s + regions_hold regions

    and_regions-alive :
        (regions : Regions) (s : S) (started : Option Exc × Workers × S)
        (rest : S → Option Exc × Regions × S)
        → regions_hold regions ≡ 0
        → Adds s started
        → ((mid : S) → AddsRegions mid (rest mid))
        → AddsRegions s (and_regions regions started rest)
    and_regions-alive regions s (some e, ws, mid) rest fresh one more = omega arith
    and_regions-alive regions s (none, ws, mid) rest fresh one more = omega (arith, more mid)

    start_regions-alive :
        (regions : Regions) (s : S)
        → regions_hold regions ≡ 0
        → AddsRegions s (start_regions regions s)
    unfolding start_regions
    start_regions-alive [] s fresh = omega arith
    start_regions-alive (ws ∷ regions) s fresh =
        let still : regions_hold regions ≡ 0 = omega arith in
        and_regions-alive regions s (start_all ws s) (start_regions regions) still
          (start_all-alive ws s (omega arith)) (λ mid. start_regions-alive regions mid still)

    -- Two stops that both return.
    and_stop-alive :
        (m n : ℕ) (s s' : S) (stopped : Option Exc × S) (rest : S → Option Exc × S)
        → and_stop stopped rest ≡ (none, s')
        → ((mid : S) → stopped ≡ (none, mid) → c.alive mid + m ≡ c.alive s)
        → ((mid : S) → rest mid ≡ (none, s') → c.alive s' + n ≡ c.alive mid)
        → c.alive s' + (m + n) ≡ c.alive s
    and_stop-alive m n s s' (some e, mid) rest both one more =
        cc (ap (λ (r : Option Exc × S). r.0) both)
    and_stop-alive m n s s' (none, mid) rest both one more =
        omega (arith, one mid refl, more mid both)

    stop_all-alive :
        (ws : Workers) (s s' : S) → stop_all ws s ≡ (none, s') → c.alive s' + hold ws ≡ c.alive s
    unfolding stop_all
    stop_all-alive [] s s' e = omega (arith, ap (λ (r : Option Exc × S). c.alive r.1) e)
    stop_all-alive (w ∷ ws) s s' e =
        and_stop-alive (holds p w) (hold ws) s s' (stop_worker p w s) (stop_all ws) e
          (λ mid. stop_worker-alive p c w s mid) (λ mid. stop_all-alive ws mid s')

    stop_regions-alive :
        (regions : Regions) (s s' : S)
        → stop_regions regions s ≡ (none, s')
        → c.alive s' + regions_hold regions ≡ c.alive s
    unfolding stop_regions
    stop_regions-alive [] s s' e = omega (arith, ap (λ (r : Option Exc × S). c.alive r.1) e)
    stop_regions-alive (ws ∷ regions) s s' e =
        and_stop-alive (hold ws) (regions_hold regions) s s' (stop_all ws s) (stop_regions regions)
          e (λ mid. stop_all-alive ws s mid) (λ mid. stop_regions-alive regions mid s')

    returned : (r : Option Exc × S) → r.0 ≡ none → r ≡ (none, r.1)
    returned (none, s) e = refl
    returned (some x, s) e = cc e

    -- A pool of new workers that is started, as far as it comes before a worker raises, and is then
    -- stopped with no stop that raises, leaves as many browsers and drivers running as before.
    pub start_and_stop-alive :
        (sizes : List ℕ) (s : S)
        → (start_and_stop sizes s).0 ≡ none
        → c.alive (start_and_stop sizes s).1 ≡ c.alive s
    start_and_stop-alive sizes s stopped =
        let (_, regions, started) = start_regions (map new_workers sizes) s in
        let after = start_and_stop sizes s in
        omega (
          arith,
          start_regions-alive (map new_workers sizes) s (regions_hold-new_workers sizes),
          stop_regions-alive regions started after.1 (returned after stopped),
        )
