-- ===== src/Tests/Scrapes.antt =====
-- Workers and the scrape routes at concrete inputs.
use asb_cloud_api.Base.{◌≡◌, ◌⊎◌, String, Bool, true, false, none, some, [], ◌∷◌, arith}
use asb_cloud_api.Base.Text.{codes}
use asb_cloud_api.Base.Int.{pos}
use asb_cloud_api.Http.{Result, ok, err, http, api_error, runtime_error}
use asb_cloud_api.Models.{ScrapeRequest, ScrapeResponse, stateless, success, BulkScrapeRequest}
use asb_cloud_api.Providers.{proxy_at}
use asb_cloud_api.Providers.Decodo.{DecodoState, decodo_provider}
use asb_cloud_api.Worker.{Config, Supplies, Runner}
use asb_cloud_api.Worker
use asb_cloud_api.Worker.Release.{SameLeases, scrape-SameLeases}
use asb_cloud_api.Worker.Decodo.{decodo-Leasing}
use asb_cloud_api.Security.{Net, SecurityConfig}
use asb_cloud_api.Security.Urls.{IsSafe}
use asb_cloud_api.Usage.Daily.{empty_tracker}
use asb_cloud_api.Scrape.{Backend, Service, World, Clock, execute_one_scrape}
use asb_cloud_api.Scrape.Region.{seen, region_backend, region_backend-Leasing}
use asb_cloud_api.Pool.{RegionPool, WorkerId}
use asb_cloud_api.Scrape.Guards.{execute_one_scrape-IsSafe, execute_one_scrape-same}

abbrev request : ScrapeRequest
request = record {
  url = "https://example.com/a";
  method = "GET";
  headers = [];
  body = none;
  proxy_provider = none;
  region = some "us";
  fingerprint = none;
  timeout = 30;
  screenshot = false;
  session_id = none;
  session_type = stateless;
}

abbrev healthy : DecodoState → Result Bool
healthy s = ok true

abbrev decodo : DecodoState
decodo = record {
  default_region = "us";
  proxies = ("us", proxy_at "a" (pos 1) ∷ []) ∷ [];
  in_use = [];
  last_refresh = 0;
}

-- A runner that always fails, so that the proxy comes back from the error path.
abbrev broken_runner : Runner
broken_runner _ _ _ = err (runtime_error "net::ERR_TIMED_OUT")

abbrev config : Config (decodo_provider healthy) (decodo_provider healthy)
config = record {
  worker_id = "worker-us-0";
  has_fallback = true;
  presets = [];
  runner = some broken_runner;
}

abbrev supplies : Supplies (decodo_provider healthy) (decodo_provider healthy)
supplies = record { first = decodo; second = decodo }

scrape-SameLeases_example :
    SameLeases
      (decodo_provider healthy)
      (decodo_provider healthy)
      (decodo-Leasing healthy)
      (decodo-Leasing healthy)
      supplies
      (Worker.scrape
        (decodo_provider healthy)
        (decodo_provider healthy)
        config
        "req_1"
        5
        request
        supplies).1
scrape-SameLeases_example =
    scrape-SameLeases (decodo_provider healthy) (decodo_provider healthy) (decodo-Leasing healthy)
      (decodo-Leasing healthy) config "req_1" 5 request supplies

abbrev page : ScrapeResponse
page = record {
  request_id = "req_1";
  status = success;
  html = some "<p>";
  screenshot_url = none;
  cookies = [];
  headers = [];
  metadata = none;
  error_code = none;
  message = none;
}

-- A region with workers of which every second scrape raises.
abbrev worker_run : WorkerId → ScrapeRequest → Bool → Result ScrapeResponse × Bool
worker_run worker _ true = (ok page, false)
worker_run worker _ false = (err (runtime_error "Target closed"), true)

abbrev backend : Backend
backend = region_backend "us" worker_run

abbrev net : Net
net = record {
  urlparse = λ url. some (record {
    scheme = "https";
    netloc = codes "example.com";
    hostname = some (codes "example.com");
  });
  is_private_ip = λ address. false;
  resolve = λ host. [];
}

abbrev security : SecurityConfig
security = record {
  log_url_domains_only = true;
  redact_authorization_headers = true;
  block_private_networks = true;
  allowed_schemes = "http" ∷ "https" ∷ [];
}

abbrev service : Service
service = record {
  limits = some (("free", record { requests = some (pos 2); window_seconds = some 10 }) ∷ []);
  store = none;
  has_usage = true;
  has_pool = true;
  net = net;
  security = security;
  repr = λ d. "{...}";
}

abbrev two_workers : RegionPool
two_workers = record {
  value = 1;
  bound = 2;
  workers =
      record { busy = true; lease_region = some "us" }
      ∷ record { busy = false; lease_region = none }
      ∷ [];
}

abbrev world : World backend
world = record {
  keys = [];
  windows = [];
  sessions = [];
  usage = empty_tracker;
  pool = two_workers;
  workers = false;
}

abbrev clock : Clock backend
clock = record { now = 20000000; today = 0 }

abbrev two_items : BulkScrapeRequest
two_items = record { items = request ∷ request ∷ []; max_concurrency = none }

abbrev three_items : BulkScrapeRequest
three_items = record { items = request ∷ request ∷ request ∷ []; max_concurrency = none }

abbrev no_items : BulkScrapeRequest
no_items = record { items = []; max_concurrency = none }

execute_one_scrape-IsSafe_example :
    IsSafe net security "https://example.com/a"
    ⊎ ((code : String) × (message : String) × (execute_one_scrape backend service clock request
            "key_a" false world
          ≡ (err (http (api_error 400 code message none [])), world)))
execute_one_scrape-IsSafe_example =
    execute_one_scrape-IsSafe backend service clock request "key_a" false world

-- The scrape raises, and the worker is released.
execute_one_scrape-same_example :
    seen "us" (execute_one_scrape backend service clock request "key_a" false world).1.pool
    ≡ seen "us" two_workers
unfolding region_backend-Leasing
execute_one_scrape-same_example =
    execute_one_scrape-same backend (region_backend-Leasing "us" worker_run) service clock request
      "key_a" false world (omega arith)
