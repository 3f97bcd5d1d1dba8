-- ===== src/Worker.antt =====
-- One worker: asb_api/workers/worker.py. The primary and the fallback provider stand behind the
-- provider interface; the browser is a parameter that returns a page or raises.
pub mod Release
pub mod Decodo
use asb_cloud_api.Base.{
  ℕ, String, Bool, true, false, Option, none, some, List, [], take, ◌==◌, string_eq, if◌then◌else◌,
}
use asb_cloud_api.Base.Dict.{Dict}
use asb_cloud_api.Http.{Exc, pool_exhausted, provider_error, Result, ok, err, message_of}
use asb_cloud_api.Providers.{ProxyConfig, Provider}
use asb_cloud_api.Fingerprint.{Fingerprint, Preset, get_fingerprint}
use asb_cloud_api.Sessions.{Cookies}
use asb_cloud_api.Models.{ScrapeRequest, ScrapeMetadata, ScrapeResponse, success, error}

-- What the runner returns.
pub record Page : Type 0 where
  pub html : String
  pub screenshot_url : Option String
  pub cookies : Cookies
  pub headers : Dict String String
  pub block_detected : Bool

-- `self.runner.run(...)`; a worker that was not started has none.
abbrev pub Runner : Type 0
Runner = ScrapeRequest → Option ProxyConfig → Fingerprint → Result Page

-- The breaker that a proxy came from, `_last_proxy_breaker`.
pub data Side : Type 0 where
  primary fallback : Side

module _ (P Q : Provider) where
  -- The two providers, as far as a scrape changes them.
  pub record Supplies : Type 0 where
    pub first : P.State
    pub second : Q.State

  -- `has_fallback`: a fallback is configured, and it is another object than the primary.
  pub record Config : Type 0 where
    pub worker_id : String
    pub has_fallback : Bool
    pub presets : Dict String Preset
    pub runner : Option Runner

  -- Where the proxy came from and the name to report.
  pub record Lease : Type 0 where
    pub proxy : Option ProxyConfig
    pub side : Side
    pub provider_name : String

  -- The fallback after an error of the primary: whatever it raises, the primary's error is raised.
  from_fallback : Exc → Option String → Supplies → Result Lease × Supplies
  from_fallback primary_err region s =
      let (result, second) = Q.get_proxy region s.second in
      (
        elim result [
          | ok proxy ↦ ok (record { proxy = some proxy; side = fallback; provider_name = Q.name })
          | err _ ↦ err primary_err
        ],
        record s { second = second },
      )

  -- `except (PoolExhaustedError, ProviderError)`
  after_error : Bool → Exc → Option String → Supplies → Result Lease × Supplies
  after_error true (pool_exhausted m) region s = from_fallback (pool_exhausted m) region s
  after_error true (provider_error m) region s = from_fallback (provider_error m) region s
  after_error _ e region s = (err e, s)

  acquire_proxy : Bool → Option String → Supplies → Result Lease × Supplies
  acquire_proxy has_fallback region s =
      let (result, first) = P.get_proxy region s.first in
      let s' = record s { first = first } in
      if P.name == "null"
      then (ok (record { proxy = none; side = primary; provider_name = P.name }), s)
      else elim result [
        | ok proxy ↦
            (ok (record { proxy = some proxy; side = primary; provider_name = P.name }), s')
        | err e ↦ after_error has_fallback e region s'
      ]

  -- `finally`: the proxy goes back to the breaker that supplied it.
  release_lease : Lease → Supplies → Supplies
  release_lease lease s = elim lease.proxy [
    | none ↦ s
    | some proxy ↦ elim lease.side [
      | primary ↦ record s { first = P.release_proxy proxy s.first }
      | fallback ↦ record s { second = Q.release_proxy proxy s.second }
    ]
  ]

  metadata : Config → String → String → Option String → ℕ → List ℕ → Bool → ScrapeMetadata
  metadata cfg request_id provider region duration_ms fingerprint_id block = record {
    request_id = request_id;
    provider = provider;
    region = region;
    fingerprint_id = fingerprint_id;
    worker_id = cfg.worker_id;
    duration_ms = duration_ms;
    block_detected = block;
    retries = 0;
  }

  failure : String → String → String → ScrapeMetadata → ScrapeResponse
  failure request_id code message meta = record {
    request_id = request_id;
    status = error;
    html = none;
    screenshot_url = none;
    cookies = [];
    headers = [];
    metadata = some meta;
    error_code = some code;
    message = some message;
  }

  page_response : String → Page → ScrapeMetadata → ScrapeResponse
  page_response request_id page meta = record {
    request_id = request_id;
    status = success;
    html = some page.html;
    screenshot_url = page.screenshot_url;
    cookies = page.cookies;
    headers = page.headers;
    metadata = some meta;
    error_code = none;
    message = none;
  }

  -- `request.fingerprint or "general"`
  unfoldable pub preset_name : Option String → String
  preset_name none = "general"
  preset_name (some name) = if name == "" then "general" else name

  -- From what the browser gave.
  answer : Config → String → ℕ → ScrapeRequest → String → Fingerprint → Result Page → ScrapeResponse
  answer cfg request_id duration_ms request provider fp (err e) =
      failure request_id "WORKER_ERROR" (message_of e)
        (metadata cfg request_id provider request.region duration_ms (take 50 fp.user_agent) false)
  answer cfg request_id duration_ms request provider fp (ok page) = page_response request_id page (
      metadata cfg request_id provider request.region duration_ms (take 50 fp.user_agent)
        page.block_detected)

  -- From what the fingerprint generator gave.
  browse :
      Config → Runner → String → ℕ → ScrapeRequest → Lease → Result Fingerprint → ScrapeResponse
  browse cfg runner request_id duration_ms request lease (err e) =
      failure request_id "WORKER_ERROR" (message_of e)
        (metadata cfg request_id lease.provider_name request.region duration_ms [] false)
  browse cfg runner request_id duration_ms request lease (ok fp) =
      answer cfg request_id duration_ms request lease.provider_name fp
        (runner request lease.proxy fp)

  -- With the proxy at hand: the fingerprint, and the browser.
  scrape_page : Config → Runner → String → ℕ → ScrapeRequest → Lease → ScrapeResponse
  scrape_page cfg runner request_id duration_ms request lease =
      browse cfg runner request_id duration_ms request lease
        (get_fingerprint cfg.presets (preset_name request.fingerprint))

  -- `try` with its `finally`, from what the acquisition gave.
  finish_scrape :
      Config
      → Runner
      → String
      → ℕ
      → ScrapeRequest
      → Result Lease × Supplies
      → ScrapeResponse × Supplies
  finish_scrape cfg runner request_id duration_ms request (ok lease, s) =
      (scrape_page cfg runner request_id duration_ms request lease, release_lease lease s)
  finish_scrape cfg runner request_id duration_ms request (err e, s) = (
    failure request_id "WORKER_ERROR" (message_of e)
        (metadata cfg request_id P.name request.region duration_ms [] false),
    s,
  )

  -- A worker without a runner refuses.
  pub scrape_with :
      Option Runner → Config → String → ℕ → ScrapeRequest → Supplies → ScrapeResponse × Supplies
  scrape_with none cfg request_id duration_ms request s = (
    failure request_id "WORKER_NOT_STARTED" "Worker runner has not been started"
        (metadata cfg request_id P.name request.region duration_ms [] false),
    s,
  )
  scrape_with (some runner) cfg request_id duration_ms request s =
      finish_scrape cfg runner request_id duration_ms request
        (acquire_proxy cfg.has_fallback request.region s)

  -- `request_id` is made of a random token, `duration_ms` is what the clock measured.
  pub scrape : Config → String → ℕ → ScrapeRequest → Supplies → ScrapeResponse × Supplies
  scrape cfg request_id duration_ms request s =
      scrape_with cfg.runner cfg request_id duration_ms request s
