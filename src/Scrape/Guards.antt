-- ===== src/Scrape/Guards.antt =====
-- What stands between a request and a worker, and what a request leaves behind.
use asb_cloud_api.Base.{
  ◌≡◌, refl, ap, ◌∙◌, ◌⊎◌, inl, inr, String, Bool, true, false, Option, none, some, [], if_elim,
  string_eq,
}
use asb_cloud_api.Http.{Exc, Result, ok, err, http, api_error}
use asb_cloud_api.Pool.{WorkerId}
use asb_cloud_api.Sessions.{SessionInfo}
use asb_cloud_api.Security.Urls.{IsSafe, validate_scrape_url_cases}
use asb_cloud_api.Models.{ScrapeRequest, ScrapeResponse}
use asb_cloud_api.Scrape.{
  Backend, Service, World, Clock, with_cookies, within_try, released, finally_release, use_worker,
  after_acquire, after_session, after_limit, after_validation, execute_one_scrape,
}

-- What is seen of a pool's leases, and the states that a pool can be in. From these the release of a
-- worker just acquired undoes the acquisition and raises nothing, and a call that raises takes
-- nothing.
pub record Leasing (B : Backend) : Type 1 where
  pub Seen : Type 0
  pub seen : B.Pool → Seen
  pub IsSound : Seen → Type 0
  pub acquire-release :
      (region : Option String) (p q : B.Pool) (worker : WorkerId)
      → IsSound (seen p)
      → B.acquire region p ≡ (ok worker, q)
      → (seen (B.release worker region q).1 ≡ seen p) × ((B.release worker region q).0 ≡ none)
  pub acquire-error :
      (region : Option String) (p q : B.Pool) (e : Exc)
      → IsSound (seen p)
      → B.acquire region p ≡ (err e, q)
      → seen q ≡ seen p

module _ (B : Backend) where
  -- Either the URL is safe, or the request is refused with a response 400 and nothing changes: no
  -- quota, session, worker or usage.
  pub execute_one_scrape-IsSafe :
      (service : Service) (clock : Clock B) (request : ScrapeRequest) (key_id : String)
      (skip : Bool) (w : World B)
      → IsSafe service.net service.security request.url
        ⊎ ((code : String) × (message : String) × (execute_one_scrape B service clock request key_id
                skip w
              ≡ (err (http (api_error 400 code message none [])), w)))
  unfolding execute_one_scrape after_validation
  execute_one_scrape-IsSafe service clock request key_id skip w =
      elim (validate_scrape_url_cases service.net service.security request.url) [
        | inl (_, safe) ↦ inl safe
        | inr (code, message, raised) ↦ inr (code, message, rw raised refl)
      ]

  within_try-same :
      (service : Service) (clock : Clock B) (request : ScrapeRequest) (key_id : String)
      (answer : Result ScrapeResponse × B.Workers) (w : World B)
      → let (_, w') = within_try B service clock request key_id answer w in
        (w'.pool ≡ w.pool) × (w'.windows ≡ w.windows)
  unfolding within_try
  within_try-same service clock request key_id (err e, workers) w = (refl, refl)
  within_try-same service clock request key_id (ok result, workers) w = (refl, refl)

  released-same :
      (r : Result ScrapeResponse × World B) (s : Option Exc × B.Pool)
      → ((released B r s).1.pool ≡ s.1) × ((released B r s).1.windows ≡ r.1.windows)
  unfolding released
  released-same (result, w) (none, pool) = (refl, refl)
  released-same (result, w) (some e, pool) = (refl, refl)

  -- The worker goes back to the pool as it was, whatever the scrape came to.
  pub use_worker-released :
      (service : Service) (clock : Clock B) (request : ScrapeRequest) (key_id : String)
      (session : Option SessionInfo) (worker : WorkerId) (w : World B)
      → let (_, w') = use_worker B service clock request key_id session worker w in
        (w'.pool ≡ (B.release worker request.region w.pool).1) × (w'.windows ≡ w.windows)
  unfolding use_worker finally_release
  use_worker-released service clock request key_id session worker w =
      let answer = B.run worker (with_cookies session request) w.workers in
      let tried = within_try B service clock request key_id answer w in
      let (pool, windows) = within_try-same service clock request key_id answer w in
      let (pool', windows') = released-same tried (B.release worker request.region tried.1.pool) in
      (pool' ∙ ap (λ p. (B.release worker request.region p).1) pool, windows' ∙ windows)

  module _ (b : Leasing B) where
    after_session-same :
        (service : Service) (clock : Clock B) (request : ScrapeRequest) (key_id : String)
        (session : Result (Option SessionInfo)) (w : World B)
        → b.IsSound (b.seen w.pool)
        → b.seen (after_session B service clock request key_id session w).1.pool ≡ b.seen w.pool
    unfolding after_session after_acquire
    after_session-same service clock request key_id (err e) w sound = refl
    after_session-same service clock request key_id (ok session) w sound =
        go (B.acquire request.region w.pool) refl
      where
        go :
            (a : Result WorkerId × B.Pool)
            → B.acquire request.region w.pool ≡ a
            → b.seen
                (after_acquire B service clock request key_id session a.0
                  (record w { pool = a.1 })).1.pool
              ≡ b.seen w.pool
        go (err e, q) h = b.acquire-error request.region w.pool q e sound h
        go (ok worker, q) h =
            ap b.seen
              (use_worker-released service clock request key_id session worker
                (record w { pool = q })).0
            ∙ (b.acquire-release request.region w.pool q worker sound h).0

    after_limit-same :
        (service : Service) (clock : Clock B) (request : ScrapeRequest) (key_id : String)
        (refused : Option Exc) (w : World B)
        → b.IsSound (b.seen w.pool)
        → b.seen (after_limit B service clock request key_id refused w).1.pool ≡ b.seen w.pool
    unfolding after_limit
    after_limit-same service clock request key_id (some e) w sound = refl
    after_limit-same service clock request key_id none w sound =
        if_elim (λ (q : Result ScrapeResponse × World B). b.seen q.1.pool ≡ b.seen w.pool)
          service.has_pool (after_session-same service clock request key_id _ _ sound) refl

    after_validation-same :
        (service : Service) (clock : Clock B) (request : ScrapeRequest) (key_id : String)
        (skip : Bool) (checked : Result String) (w : World B)
        → b.IsSound (b.seen w.pool)
        → b.seen (after_validation B service clock request key_id skip checked w).1.pool
          ≡ b.seen w.pool
    unfolding after_validation
    after_validation-same service clock request key_id skip (err e) w sound = refl
    after_validation-same service clock request key_id true (ok _) w sound =
        after_limit-same service clock request key_id none w sound
    after_validation-same service clock request key_id false (ok _) w sound =
        after_limit-same service clock request key_id _ _ sound

    -- On every path, an exception of the worker's scrape or of the release included, a request leaves
    -- a pool that is sound with the leases it had, where the release of a sound pool undoes its own
    -- successful acquisition and an acquisition that raises takes nothing.
    pub execute_one_scrape-same :
        (service : Service) (clock : Clock B) (request : ScrapeRequest) (key_id : String)
        (skip : Bool) (w : World B)
        → b.IsSound (b.seen w.pool)
        → b.seen (execute_one_scrape B service clock request key_id skip w).1.pool ≡ b.seen w.pool
    unfolding execute_one_scrape
    execute_one_scrape-same service clock request key_id skip w sound =
        after_validation-same service clock request key_id skip _ w sound
