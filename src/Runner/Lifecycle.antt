-- ===== src/Runner/Lifecycle.antt =====
-- The start and the stop of a browser runner, asb_api/workers/asb_runner.py, and of the worker that
-- holds it, asb_api/workers/worker.py. Playwright is a parameter over the state `S` of its processes.
use asb_cloud_api.Base.{◌≡◌, refl, ap, ℕ, suc, ◌+◌, Option, none, some, arith}
use asb_cloud_api.Http.{Exc, Result, ok, err}

-- `async_playwright().start()`, `playwright.chromium.launch()`, `browser.close()`,
-- `playwright.stop()`.
pub record Playwright (S Driver Browser : Type 0) : Type 0 where
  pub start : S → Result Driver × S
  pub launch : Driver → S → Result Browser × S
  pub close : Browser → S → Option Exc × S
  pub stop : Driver → S → Option Exc × S

-- `class ASBRunner`
pub record AsbRunner (Driver Browser : Type 0) : Type 0 where
  pub playwright : Option Driver
  pub browser : Option Browser

module _ {S Driver Browser : Type 0} (p : Playwright S Driver Browser) where
  abbrev pub Runner : Type 0
  Runner = AsbRunner Driver Browser

  abbrev pub launched : Driver → Result Browser × S → Option Exc × Runner × S
  launched driver (ok browser, s) =
      (none, record { playwright = some driver; browser = some browser }, s)
  launched driver (err e, s) = (some e, record { playwright = some driver; browser = none }, s)

  abbrev pub entered : Result Driver × S → Option Exc × Runner × S
  entered (ok driver, s) = launched driver (p.launch driver s)
  entered (err e, s) = (some e, record { playwright = none; browser = none }, s)

  -- `ASBWorker.start`: `__aenter__` of a new runner, which the worker holds also where it raises.
  unfoldable pub start_worker : S → Option Exc × Option Runner × S
  start_worker s = let (raised, runner, s') = entered (p.start s) in (raised, some runner, s')

  abbrev pub stop_playwright : Option Driver → S → Option Exc × S
  stop_playwright none s = (none, s)
  stop_playwright (some driver) s = p.stop driver s

  -- A browser that does not close keeps playwright from being stopped.
  abbrev pub after_close : Option Driver → Option Exc × S → Option Exc × S
  after_close driver (none, s) = stop_playwright driver s
  after_close driver (some e, s) = (some e, s)

  -- `__aexit__`, which is all of `close`.
  unfoldable pub close_runner : Runner → S → Option Exc × S
  close_runner r s = elim r.browser [
    | none ↦ stop_playwright r.playwright s
    | some browser ↦ after_close r.playwright (p.close browser s)
  ]

  -- `ASBWorker.stop`
  unfoldable pub stop_worker : Option Runner → S → Option Exc × S
  stop_worker none s = (none, s)
  stop_worker (some r) s = close_runner r s

  -- The processes that run, as Playwright documents it: a start and a launch that return add one, and
  -- add none where they raise; a stop and a close that return take one away.
  pub record Counted : Type 0 where
    pub alive : S → ℕ
    pub start_ok : (s s' : S) (d : Driver) → p.start s ≡ (ok d, s') → alive s' ≡ suc (alive s)
    pub start_err : (s s' : S) (e : Exc) → p.start s ≡ (err e, s') → alive s' ≡ alive s
    pub launch_ok :
        (d : Driver) (s s' : S) (b : Browser) → p.launch d s ≡ (ok b, s') → alive s' ≡ suc (alive s)
    pub launch_err :
        (d : Driver) (s s' : S) (e : Exc) → p.launch d s ≡ (err e, s') → alive s' ≡ alive s
    pub close_ok : (b : Browser) (s s' : S) → p.close b s ≡ (none, s') → suc (alive s') ≡ alive s
    pub stop_ok : (d : Driver) (s s' : S) → p.stop d s ≡ (none, s') → suc (alive s') ≡ alive s

  -- The processes that a worker holds.
  abbrev pub held {ℓ} : {A : Type ℓ} → Option A → ℕ
  held none = 0
  held (some _) = 1

  abbrev pub holds : Option Runner → ℕ
  holds none = 0
  holds (some r) = held r.playwright + held r.browser

  module _ (c : Counted) where
    launched-alive :
        (d : Driver) (s : S) (result : Result Browser × S)
        → p.launch d s ≡ result
        → let (_, r, s') = launched d result in c.alive s' + 1 ≡ c.alive s + holds (some r)
    launched-alive d s (ok b, s') e = omega (arith, c.launch_ok d s s' b e)
    launched-alive d s (err x, s') e = omega (arith, c.launch_err d s s' x e)

    entered-alive :
        (s : S) (result : Result Driver × S)
        → p.start s ≡ result
        → let (_, r, s') = entered result in c.alive s' ≡ c.alive s + holds (some r)
    entered-alive s (ok d, s') e =
        omega (arith, c.start_ok s s' d e, launched-alive d s' (p.launch d s') refl)
    entered-alive s (err x, s') e = omega (arith, c.start_err s s' x e)

    -- A worker that starts, or raises, holds just what it has added.
    pub start_worker-alive :
        (s : S) → let (_, w, s') = start_worker s in c.alive s' ≡ c.alive s + holds w
    unfolding start_worker
    start_worker-alive s = entered-alive s (p.start s) refl

    stop_playwright-alive :
        (driver : Option Driver) (s s' : S)
        → stop_playwright driver s ≡ (none, s')
        → c.alive s' + held driver ≡ c.alive s
    stop_playwright-alive none s s' e = omega (arith, ap (λ (r : Option Exc × S). c.alive r.1) e)
    stop_playwright-alive (some d) s s' e = omega (arith, c.stop_ok d s s' e)

    after_close-alive :
        (driver : Option Driver) (b : Browser) (s s' : S) (result : Option Exc × S)
        → p.close b s ≡ result
        → after_close driver result ≡ (none, s')
        → c.alive s' + held driver + 1 ≡ c.alive s
    after_close-alive driver b s s' (none, mid) e e' =
        omega (arith, c.close_ok b s mid e, stop_playwright-alive driver mid s' e')
    after_close-alive driver b s s' (some x, mid) e e' = cc (ap (λ (r : Option Exc × S). r.0) e')

    close_runner-alive :
        (r : Runner) (browser : Option Browser) (s s' : S)
        → r.browser ≡ browser
        → close_runner r s ≡ (none, s')
        → c.alive s' + holds (some r) ≡ c.alive s
    unfolding close_runner
    close_runner-alive r none s s' at e =
        let stopped : stop_playwright r.playwright s ≡ (none, s') = rw at at e in
        omega (arith, stop_playwright-alive r.playwright s s' stopped, ap held at)
    close_runner-alive r (some b) s s' at e =
        let stopped : after_close r.playwright (p.close b s) ≡ (none, s') = rw at at e in
        omega (arith, after_close-alive r.playwright b s s' (p.close b s) refl stopped, ap held at)

    -- A worker whose stop returns has taken away just what it held.
    pub stop_worker-alive :
        (w : Option Runner) (s s' : S)
        → stop_worker w s ≡ (none, s')
        → c.alive s' + holds w ≡ c.alive s
    unfolding stop_worker
    stop_worker-alive none s s' e = omega (arith, ap (λ (r : Option Exc × S). c.alive r.1) e)
    stop_worker-alive (some r) s s' e = close_runner-alive r r.browser s s' refl e
