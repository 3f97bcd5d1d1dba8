-- ===== src/Scrape.antt =====
-- The scrape routes: asb_api/api/routes/scrape.py, with the stores that keep their state in memory.
-- A pool and its workers stand behind the interface `Backend`. A request reads the clock once; the
-- items of a batch are run one after the other, which is one of the orders that the semaphore allows.
pub mod Parts
pub mod Guards
pub mod Region
pub mod Bulk
unfoldable pub use Parts.*
use asb_cloud_api.Base.{
  ℕ, String, Bool, true, false, Option, none, some, string_eq, nat_eq, if◌then◌else◌,
}
use asb_cloud_api.Http.{Exc, Result, ok, err, Body, raise_api_error}
use asb_cloud_api.Auth.{KeyStore}
use asb_cloud_api.Auth
use asb_cloud_api.RateLimit.{Limits, Windows}
use asb_cloud_api.Pool.{WorkerId}
use asb_cloud_api.Sessions.{Cookies, Store, Sessions, SessionInfo, update_cookies, increment_count}
use asb_cloud_api.Sessions
use asb_cloud_api.Usage.{UsageTracker, increment}
use asb_cloud_api.Security.{Net, SecurityConfig, validate_scrape_url}
use asb_cloud_api.Models.{ScrapeRequest, ScrapeResponse}

-- A worker pool and its workers. `acquire` is what the call comes to once it returns, the work of
-- other tasks in between included; a worker's `scrape` answers or raises.
pub record Backend : Type 1 where
  pub Pool : Type 0
  pub Workers : Type 0
  pub acquire : Option String → Pool → Result WorkerId × Pool
  pub release : WorkerId → Option String → Pool → Option Exc × Pool
  pub run : WorkerId → ScrapeRequest → Workers → Result ScrapeResponse × Workers

-- `rate_limiter`, `session_store` and so on, where they are set; Python's `str` of a dict.
pub record Service : Type 0 where
  pub limits : Option Limits
  pub store : Option Store
  pub has_usage : Bool
  pub has_pool : Bool
  pub net : Net
  pub security : SecurityConfig
  pub repr : Body → String

module _ (B : Backend) where
  -- What a request can change; `keys` it only reads.
  pub record World : Type 0 where
    pub keys : KeyStore
    pub windows : Windows
    pub sessions : Sessions
    pub usage : UsageTracker
    pub pool : B.Pool
    pub workers : B.Workers

  -- `now`, and the day it falls on.
  pub record Clock : Type 0 where
    pub now : ℕ
    pub today : ℕ

  -- The session's new cookies and its count.
  unfoldable save_session : Option Store → ℕ → Option String → Cookies → Sessions → Sessions
  save_session (some store) now (some id) cookies sessions =
      increment_count now id (update_cookies store now id cookies sessions)
  save_session (some store) now none cookies sessions = sessions
  save_session none now id cookies sessions = sessions

  -- The body of the `try` from what the worker gave: the session and the usage, or the exception,
  -- which leaves both as they are.
  unfoldable within_try :
      Service
      → Clock
      → ScrapeRequest
      → String
      → Result ScrapeResponse × B.Workers
      → World
      → Result ScrapeResponse × World
  within_try service clock request key_id (err e, workers) w =
      (err e, record w { workers = workers })
  within_try service clock request key_id (ok result, workers) w = (
    ok result,
    record w {
      sessions =
          save_session service.store clock.now (session_of request) result.cookies w.sessions;
      usage = if service.has_usage then increment clock.today key_id w.usage else w.usage;
      workers = workers;
    },
  )

  -- The release of the `finally`: its exception takes the place of the result, or of the exception
  -- that there was.
  unfoldable released :
      Result ScrapeResponse × World → Option Exc × B.Pool → Result ScrapeResponse × World
  released (result, w) (none, pool) = (result, record w { pool = pool })
  released (result, w) (some e, pool) = (err e, record w { pool = pool })

  -- `finally: pool.release(worker, request.region)`
  unfoldable finally_release :
      WorkerId → ScrapeRequest → Result ScrapeResponse × World → Result ScrapeResponse × World
  finally_release worker request (result, w) =
      released (result, w) (B.release worker request.region w.pool)

  -- With a worker: the scrape, the session and the usage in a `try`, and the release in its `finally`.
  pub use_worker :
      Service
      → Clock
      → ScrapeRequest
      → String
      → Option SessionInfo
      → WorkerId
      → World
      → Result ScrapeResponse × World
  use_worker service clock request key_id session worker w = finally_release worker request (
      within_try service clock request key_id
        (B.run worker (with_cookies session request) w.workers) w)

  -- From what the pool gave.
  after_acquire :
      Service
      → Clock
      → ScrapeRequest
      → String
      → Option SessionInfo
      → Result WorkerId
      → World
      → Result ScrapeResponse × World
  after_acquire service clock request key_id session (err e) w = (err e, w)
  after_acquire service clock request key_id session (ok worker) w =
      use_worker service clock request key_id session worker w

  -- From what the session store gave.
  after_session :
      Service
      → Clock
      → ScrapeRequest
      → String
      → Result (Option SessionInfo)
      → World
      → Result ScrapeResponse × World
  after_session service clock request key_id (err e) w = (err e, w)
  after_session service clock request key_id (ok session) w =
      let (worker, pool) = B.acquire request.region w.pool in
      after_acquire service clock request key_id session worker (record w { pool = pool })

  -- The pool's guard, and the session.
  after_limit :
      Service → Clock → ScrapeRequest → String → Option Exc → World → Result ScrapeResponse × World
  after_limit service clock request key_id (some e) w = (err e, w)
  after_limit service clock request key_id none w =
      let (session, sessions) =
        find_session service.store clock.now key_id request.session_type (session_of request)
          w.sessions in
      if service.has_pool
      then after_session service clock request key_id session (record w { sessions = sessions })
      else (
        raise_api_error 503 "SERVICE_NOT_INITIALIZED"
            "Worker pool or backing service is unavailable",
        w,
      )

  -- The limiter, unless it was asked for the whole batch.
  after_validation :
      Service
      → Clock
      → ScrapeRequest
      → String
      → Bool
      → Result String
      → World
      → Result ScrapeResponse × World
  after_validation service clock request key_id skip (err e) w = (err e, w)
  after_validation service clock request key_id true (ok _) w =
      after_limit service clock request key_id none w
  after_validation service clock request key_id false (ok _) w =
      let (refused, windows) =
        check_rate_limit_units service.limits clock.now key_id (get_key_tier key_id w.keys) 1
          w.windows in
      after_limit service clock request key_id refused (record w { windows = windows })

  -- `_execute_one_scrape`
  pub execute_one_scrape :
      Service → Clock → ScrapeRequest → String → Bool → World → Result ScrapeResponse × World
  execute_one_scrape service clock request key_id skip w =
      after_validation service clock request key_id skip
        (validate_scrape_url service.net service.security request.url) w

  -- `POST /v1/scrape`
  pub scrape : Service → Clock → ScrapeRequest → String → World → Result ScrapeResponse × World
  scrape service clock request key_id w = execute_one_scrape service clock request key_id false w
