-- ===== src/Tests/Service.antt =====
-- A life of the service at concrete parts.
use asb_cloud_api.Base.{
  ◌≡◌, refl, ℕ, zero, suc, false, Option, none, some, List, [], ◌∷◌, arith, string_eq, map,
}
use asb_cloud_api.Http.{Exc, Result, ok, err, runtime_error}
use asb_cloud_api.Accounts.{Account}
use asb_cloud_api.Database.Connection.{Driver, connect, disconnect, with_connection, pool_of}
use asb_cloud_api.Database.Migrations.{Statement, run_migrations}
use asb_cloud_api.Runner.Lifecycle.{Playwright, Counted, start_worker, stop_worker, close_runner}
use asb_cloud_api.Pool.Lifecycle.{start_regions, stop_regions, new_workers, start_all, stop_all}
use asb_cloud_api.Providers.Registry.Lifecycle.{Hook, call_all}
use asb_cloud_api.Startup.{shutdown}
use asb_cloud_api.Startup.Wiring.{
  StartupConfig, nothing_wired, database_dsn, startup, stops, State, startup_with, open_database,
  open_registry, open_checker, open_workers, wire, wire_postgres,
}
use asb_cloud_api.Startup.Service.{Service, parts}
use asb_cloud_api.Startup.Ended.{shutdown-startup}

abbrev cfg : StartupConfig
cfg = record {
  dsn = none;
  database_url = some "postgres://db";
  min_pool = none;
  max_pool = none;
  billing_enabled = false;
  rate_limits = none;
  session_ttl_seconds = none;
  encryption_key = none;
}

abbrev end_process : ℕ → Option Exc × ℕ
end_process zero = (some (runtime_error "not running"), 0)
end_process (suc s) = (none, s)

-- The state counts the processes.
abbrev playwright : Playwright ℕ (Unit {0}) (Unit {0})
playwright = record {
  start = λ s. (ok tt, suc s);
  launch = λ driver s. (ok tt, suc s);
  close = λ browser s. end_process s;
  stop = λ driver s. end_process s;
}

start-ok : (s s' : ℕ) (d : Unit {0}) → playwright.start s ≡ (ok d, s') → s' ≡ suc s
start-ok s s' d e = ground arith

start-err : (s s' : ℕ) (x : Exc) → playwright.start s ≡ (err x, s') → s' ≡ s
start-err s s' x e = ground arith

end_process-none : (s s' : ℕ) → end_process s ≡ (none, s') → suc s' ≡ s
end_process-none zero s' e = ground arith
end_process-none (suc s) s' e = ground arith

abbrev counted : Counted playwright
counted = record {
  alive = λ s. s;
  start_ok = start-ok;
  start_err = start-err;
  launch_ok = λ d. start-ok;
  launch_err = λ d. start-err;
  close_ok = λ b s s'. end_process-none s s';
  stop_ok = λ d s s'. end_process-none s s';
}

-- The server counts the pools of connections.
abbrev driver : Driver ℕ (Unit {0}) (Unit {0})
driver = record {
  create_pool = λ dsn m n s. (ok tt, suc s);
  close = λ pool s. end_process s;
  acquire = λ pool s. (ok tt, s);
  release = λ pool conn s. (none, s);
}

abbrev execute : Unit {0} → List Statement → ℕ → Result (Unit {0}) × ℕ
execute conn statements s = (ok tt, s)

-- The default key is there already.
abbrev insert_key : Unit {0} → ℕ → Result Account × ℕ
insert_key conn s = (err (runtime_error "UniqueViolationError"), s)

abbrev starts : List (Option (Hook ℕ))
starts = none ∷ some (λ q. (none, suc q)) ∷ []

abbrev ends : List (Option (Hook ℕ))
ends = none ∷ some (λ q. end_process q) ∷ []

abbrev Live : Type 0
Live = Service driver execute insert_key playwright starts ends

abbrev new_service : Live
new_service = record {
  database = record { dsn = ""; min_pool = 5; max_pool = 20; pool = none };
  server = 0;
  providers = 0;
  checking = false;
  regions = map (new_workers playwright) (2 ∷ 1 ∷ []);
  processes = 4;
}

abbrev up : Option Exc × State (parts driver execute insert_key playwright starts ends) cfg
up =
    startup (parts driver execute insert_key playwright starts ends) cfg
      (nothing_wired, new_service)

abbrev down : List Exc × Live
down = shutdown (stops (parts driver execute insert_key playwright starts ends) cfg up.1.0) up.1.1

shutdown-startup_example :
    (counted.alive down.1.processes ≡ counted.alive new_service.processes)
    × (down.1.database.pool ≡ none)
unfolding startup startup_with open_database open_registry open_checker open_workers wire
    database_dsn string_eq wire_postgres parts shutdown connect disconnect with_connection pool_of
    run_migrations start_regions stop_regions new_workers start_all stop_all start_worker
    stop_worker close_runner call_all
shutdown-startup_example =
    shutdown-startup driver execute insert_key playwright starts ends cfg counted (2 ∷ 1 ∷ [])
      up.1.0 new_service up.1.1 down.1 refl refl refl refl
