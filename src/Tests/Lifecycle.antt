-- ===== src/Tests/Lifecycle.antt =====
-- Startup, workers, connections and migrations at concrete inputs.
use asb_cloud_api.Base.{
  ◌≡◌, ◌≢◌, Bool, not, ◌==◌, refl, String, ℕ, zero, suc, ◌-◌, true, Option, none, some, List, [],
  ◌∷◌, arith, string_eq, ltb, if◌then◌else◌,
}
use asb_cloud_api.Http.{Exc, Result, ok, err, runtime_error}
use asb_cloud_api.Startup.Wiring.{
  Parts, StartupConfig, nothing_wired, database_dsn, startup, if_set, stops, State, startup_with,
  open_database, open_registry, open_checker, open_workers, wire, wire_postgres,
}
use asb_cloud_api.Startup.Served.{Shares, backend_of, is_postgres, startup-Shares}
use asb_cloud_api.Runner.Lifecycle.{Playwright, Counted, start_worker, stop_worker, close_runner}
use asb_cloud_api.Pool.Lifecycle.{
  start_regions, stop_regions, new_workers, start_all, stop_all, start_and_stop,
  start_and_stop-alive,
}
use asb_cloud_api.Database.Connection.{Driver, Database}
use asb_cloud_api.Database.Migrations.{Statement, Catalog, column, run_script, run_migrations}
use asb_cloud_api.Database.Migrations.Twice.{Executed, Server, run_migrations-refused}

-- Every start counts one more, every stop one less.
abbrev counting : Parts ℕ
counting = record {
  connect = λ dsn m n s. (none, suc s);
  run_migrations = λ s. (none, s);
  start_providers = λ s. (none, suc s);
  start_checker = λ s. (none, suc s);
  start_workers = λ s. (none, suc s);
  create_default_key = λ s. (some (runtime_error "UniqueViolationError"), s);
  stop_checker = λ s. (none, s - 1);
  stop_workers = λ s. (none, s - 1);
  stop_providers = λ s. (none, s - 1);
  disconnect = λ s. (none, s - 1);
}

abbrev with_database : StartupConfig
with_database = record {
  dsn = none;
  database_url = some "postgres://db";
  min_pool = none;
  max_pool = some 3;
  billing_enabled = true;
  rate_limits = none;
  session_ttl_seconds = none;
  encryption_key = none;
}

abbrev after_startup : Option Exc × State counting with_database
after_startup = startup counting with_database (nothing_wired, 0)

startup-Shares_example :
    Shares with_database (backend_of (database_dsn with_database)) after_startup.1.0
    × (stops counting with_database after_startup.1.0
        ≡ some counting.stop_checker
          ∷ some counting.stop_workers
          ∷ some counting.stop_providers
          ∷ if_set counting with_database
              (is_postgres (backend_of (database_dsn with_database)))
              counting.disconnect
          ∷ [])
unfolding startup startup_with open_database open_registry open_checker open_workers wire
    database_dsn string_eq wire_postgres
startup-Shares_example =
    startup-Shares counting with_database 0 after_startup.1.1 after_startup.1.0 refl

-- A driver that can launch no browser once three processes run; the state counts them.
abbrev launch_few : ℕ → Result (Unit {0}) × ℕ
launch_few s = if ltb s 3 then (ok tt, suc s) else (err (runtime_error "launch"), s)

abbrev end_process : ℕ → Option Exc × ℕ
end_process zero = (some (runtime_error "not running"), 0)
end_process (suc s) = (none, s)

abbrev playwright : Playwright ℕ (Unit {0}) (Unit {0})
playwright = record {
  start = λ s. (ok tt, suc s);
  launch = λ driver s. launch_few s;
  close = λ browser s. end_process s;
  stop = λ driver s. end_process s;
}

launch_few-ok : (s s' : ℕ) (b : Unit {0}) → launch_few s ≡ (ok b, s') → s' ≡ suc s
launch_few-ok s s' b e = ground arith

launch_few-err : (s s' : ℕ) (x : Exc) → launch_few s ≡ (err x, s') → s' ≡ s
launch_few-err s s' x e = ground arith

end_process-none : (s s' : ℕ) → end_process s ≡ (none, s') → suc s' ≡ s
end_process-none zero s' e = ground arith
end_process-none (suc s) s' e = ground arith

start-ok : (s s' : ℕ) (d : Unit {0}) → playwright.start s ≡ (ok d, s') → s' ≡ suc s
start-ok s s' d e = ground arith

start-err : (s s' : ℕ) (x : Exc) → playwright.start s ≡ (err x, s') → s' ≡ s
start-err s s' x e = ground arith

abbrev counted : Counted playwright
counted = record {
  alive = λ s. s;
  start_ok = start-ok;
  start_err = start-err;
  launch_ok = λ d s s' b. launch_few-ok s s' b;
  launch_err = λ d s s' x. launch_few-err s s' x;
  close_ok = λ b s s'. end_process-none s s';
  stop_ok = λ d s s'. end_process-none s s';
}

-- The second of three workers does not start.
start_and_stop-alive_example :
    counted.alive (start_and_stop playwright (2 ∷ 1 ∷ []) 0).1 ≡ counted.alive 0
unfolding start_regions stop_regions new_workers start_all stop_all start_worker stop_worker
    close_runner
start_and_stop-alive_example = start_and_stop-alive playwright counted (2 ∷ 1 ∷ []) 0 refl

abbrev connected : Database (Unit {0})
connected = record { dsn = "postgres://db"; min_pool = 5; max_pool = 20; pool = some tt }

-- The server does not take an index on the date of a time with time zone.
abbrev accepts : String → Bool
accepts on = not (on == "key_id, DATE(created_at)")

-- A server whose state is its catalog.
abbrev script_run : Result Catalog → Catalog → Result (Unit {0}) × Catalog
script_run (ok c) before = (ok tt, c)
script_run (err e) before = (err e, before)

abbrev postgres : Driver Catalog (Unit {0}) (Unit {0})
postgres = record {
  create_pool = λ dsn m n s. (ok tt, s);
  close = λ pool s. (none, s);
  acquire = λ pool s. (ok tt, s);
  release = λ pool conn s. (none, s);
}

abbrev execute : Unit {0} → List Statement → Catalog → Result (Unit {0}) × Catalog
execute conn statements c = script_run (run_script accepts statements c) c

script_run-Executed :
    (run : Result Catalog) (before : Catalog)
    → Executed before run (script_run run before).0 (script_run run before).1
script_run-Executed (ok c) before = (refl, refl)
script_run-Executed (err e) before = (refl, refl)

abbrev server : Server postgres execute
server = record {
  accepts = accepts;
  catalog = λ c. c;
  executed = λ conn statements c. script_run-Executed (run_script accepts statements c) c;
  acquire_same = λ pool s. refl;
  release_same = λ pool conn s. refl;
}

-- A database that has the first table already, without the columns for Stripe.
abbrev old_catalog : Catalog
old_catalog = record {
  tables = ("api_keys", column "key_id" "VARCHAR(32) PRIMARY KEY" ∷ []) ∷ [];
  indexes = [];
}

abbrev migrated : Result (Unit {0}) × Catalog
migrated = run_migrations postgres execute connected old_catalog

run_migrations-refused_example :
    (migrated.0 ≢ ok tt) × (server.catalog migrated.1 ≡ server.catalog old_catalog)
unfolding string_eq
run_migrations-refused_example = run_migrations-refused server connected old_catalog refl
