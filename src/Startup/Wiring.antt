-- ===== src/Startup/Wiring.antt =====
-- `startup` of asb_api/__main__.py: the parts in the order in which they start, and the stores that are
-- handed to the routes. The starts of the parts are an interface over the state `W` of the parts; the
-- objects that the routes hold are named, so that it shows who shares them.
use asb_cloud_api.Base.{
  ℕ, ◌+◌, String, Bool, true, false, Option, none, some, List, [], ◌∷◌, ◌==◌, string_eq,
  if◌then◌else◌,
}
use asb_cloud_api.Http.{Exc}
use asb_cloud_api.RateLimit.{Limits}
use asb_cloud_api.Providers.Registry.Lifecycle.{Hook, and_then}
use asb_cloud_api.Startup.{Stop}

-- The parts of the service that start and stop.
pub record Parts (W : Type 0) : Type 0 where
  pub connect : String → ℕ → ℕ → Hook W
  pub run_migrations : Hook W
  pub start_providers : Hook W
  pub start_checker : Hook W
  pub start_workers : Hook W
  pub create_default_key : Hook W
  pub stop_checker : Stop W
  pub stop_workers : Stop W
  pub stop_providers : Stop W
  pub disconnect : Stop W

-- What `startup` reads of the configuration and the environment.
pub record StartupConfig : Type 0 where
  pub dsn : Option String
  pub database_url : Option String
  pub min_pool : Option ℕ
  pub max_pool : Option ℕ
  pub billing_enabled : Bool
  pub rate_limits : Option Limits
  pub session_ttl_seconds : Option ℕ
  pub encryption_key : Option String

pub data Backend : Type 0 where
  in_memory in_postgres : Backend

-- An object of one of the classes of stores, with a number that no other object has.
pub record Object : Type 0 where
  pub backend : Backend
  pub number : ℕ

abbrev pub object_of : Backend → ℕ → Object
object_of backend number = record { backend = backend; number = number }

pub record SessionObject : Type 0 where
  pub object : Object
  pub encryption_key : Option String
  pub ttl_seconds : ℕ

pub record LimiterObject : Type 0 where
  pub object : Object
  pub limits : Option Limits
  pub usage_tracker : Option Object

-- The globals of __main__.py, as far as they are set, and what the `set_...` functions of the routes
-- have been called with.
pub record Wired : Type 0 where
  pub db : Bool
  pub provider_registry : Bool
  pub health_checker : Bool
  pub worker_pool : Bool
  pub scrape_pool : Bool
  pub health_context : Bool
  pub key_store : Option Object
  pub webhook_store : Option Object
  pub usage_tracker : Option Object
  pub usage_context : Option (Object × Option Limits)
  pub rate_limiter : Option LimiterObject
  pub session_store : Option SessionObject
  pub scrape_session_store : Option SessionObject
  pub next : ℕ

-- Before the startup.
abbrev pub nothing_wired : Wired
nothing_wired = record {
  db = false;
  provider_registry = false;
  health_checker = false;
  worker_pool = false;
  scrape_pool = false;
  health_context = false;
  key_store = none;
  webhook_store = none;
  usage_tracker = none;
  usage_context = none;
  rate_limiter = none;
  session_store = none;
  scrape_session_store = none;
  next = 0;
}

abbrev pub default {ℓ} : {A : Type ℓ} → A → Option A → A
default a none = a
default a (some b) = b

-- `db_cfg.get("dsn") or os.environ.get("DATABASE_URL")`, where an empty text counts as none.
unfoldable pub database_dsn : StartupConfig → Option String
database_dsn cfg =
    let env : Option String = elim cfg.database_url [
      | none ↦ none
      | some url ↦ if url == "" then none else some url
    ] in
    elim cfg.dsn [ none ↦ env | some dsn ↦ if dsn == "" then env else some dsn ]

-- The stores in Postgres, in the order in which they are made. The key that is made at every startup
-- is left out if its making raises.
unfoldable pub wire_postgres : StartupConfig → Wired → Wired
wire_postgres cfg w =
    let key_store = object_of in_postgres w.next in
    let usage = object_of in_postgres (w.next + 1) in
    let limiter = object_of in_postgres (w.next + 2) in
    let sessions : SessionObject = record {
      object = object_of in_postgres (w.next + 3);
      encryption_key = cfg.encryption_key;
      ttl_seconds = default 300 cfg.session_ttl_seconds;
    } in
    record w {
      key_store = some key_store;
      webhook_store = if cfg.billing_enabled then some key_store else w.webhook_store;
      usage_tracker = some usage;
      usage_context = some (usage, cfg.rate_limits);
      rate_limiter =
          some (record { object = limiter; limits = cfg.rate_limits; usage_tracker = some usage });
      session_store = some sessions;
      scrape_session_store = some sessions;
      next = w.next + 4;
    }

unfoldable pub wire_in_memory : StartupConfig → Wired → Wired
wire_in_memory cfg w =
    let key_store = object_of in_memory w.next in
    let limiter = object_of in_memory (w.next + 1) in
    let sessions : SessionObject = record {
      object = object_of in_memory (w.next + 2);
      encryption_key = cfg.encryption_key;
      ttl_seconds = default 300 cfg.session_ttl_seconds;
    } in
    let usage = object_of in_memory (w.next + 3) in
    record w {
      key_store = some key_store;
      usage_tracker = some usage;
      usage_context = some (usage, cfg.rate_limits);
      rate_limiter =
          some (record { object = limiter; limits = cfg.rate_limits; usage_tracker = none });
      session_store = some sessions;
      scrape_session_store = some sessions;
      next = w.next + 4;
    }

module _ {W : Type 0} (parts : Parts W) (cfg : StartupConfig) where
  -- The state of the startup: what is wired, and the parts.
  abbrev pub State : Type 0
  State = Wired × W

  abbrev pub started : Option Exc × W → Wired → Option Exc × State
  started (raised, parts_state) w = (raised, (w, parts_state))

  -- The database: its global is set before it connects.
  unfoldable pub open_database : Option String → State → Option Exc × State
  open_database none (w, s) = (none, (w, s))
  open_database (some dsn) (w, s) =
      let connected = parts.connect dsn (default 5 cfg.min_pool) (default 20 cfg.max_pool) s in
      started (and_then connected parts.run_migrations) (record w { db = true })

  -- The start of a part, and then its entry in a global.
  abbrev pub then_set : Option Exc × W → Wired → (Wired → Wired) → Option Exc × State
  then_set (none, s) w set = (none, (set w, s))
  then_set (some e, s) w set = (some e, (w, s))

  unfoldable pub open_registry : State → Option Exc × State
  open_registry (w, s) =
      then_set (parts.start_providers s) w (λ v. record v { provider_registry = true })

  unfoldable pub open_checker : State → Option Exc × State
  open_checker (w, s) = then_set (parts.start_checker s) w (λ v. record v { health_checker = true })

  unfoldable pub open_workers : State → Option Exc × State
  open_workers (w, s) =
      then_set (parts.start_workers s) w (λ v. record v { worker_pool = true; scrape_pool = true })

  -- The stores and the health context. What the making of the default key raises is passed over.
  unfoldable pub wire : Option String → State → Option Exc × State
  wire none (w, s) = (none, (record (wire_in_memory cfg w) { health_context = true }, s))
  wire (some dsn) (w, s) =
      let (_, s') = parts.create_default_key s in
      (none, (record (wire_postgres cfg w) { health_context = true }, s'))

  unfoldable pub startup_with : Option String → State → Option Exc × State
  startup_with dsn s = and_then (open_database dsn s) λ s1.
      and_then (open_registry s1)
        λ s2. and_then (open_checker s2) λ s3. and_then (open_workers s3) (wire dsn)

  -- `startup`
  unfoldable pub startup : State → Option Exc × State
  startup = startup_with (database_dsn cfg)

  abbrev pub if_set : Bool → Stop W → Option (Stop W)
  if_set false stop = none
  if_set true stop = some stop

  -- The parts that `shutdown` stops, in its order.
  abbrev pub stops : Wired → List (Option (Stop W))
  stops w =
      if_set w.health_checker parts.stop_checker
      ∷ if_set w.worker_pool parts.stop_workers
      ∷ if_set w.provider_registry parts.stop_providers
      ∷ if_set w.db parts.disconnect
      ∷ []
