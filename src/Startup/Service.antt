-- ===== src/Startup/Service.antt =====
-- The parts that asb_api/__main__.py starts and stops, put together from the components: the database of
-- asb_api/db/connection.py, the providers of asb_api/providers/__init__.py, the task of the health
-- checker of asb_api/providers/health.py and the workers of asb_api/workers/pool.py.
use asb_cloud_api.Base.{Bool, true, false, Option, none, some, List}
use asb_cloud_api.Http.{Exc, Result, ok, err}
use asb_cloud_api.Accounts.{Account}
use asb_cloud_api.Database.Connection.{Driver, Database, connect, disconnect, with_connection}
use asb_cloud_api.Database.Migrations.{Statement, run_migrations}
use asb_cloud_api.Runner.Lifecycle.{Playwright}
use asb_cloud_api.Pool.Lifecycle.{Regions, start_regions, stop_regions}
use asb_cloud_api.Providers.Registry.Lifecycle.{Hook, call_all}
use asb_cloud_api.Startup.Wiring.{Parts}

abbrev pub raised_of {ℓ} : {A : Type ℓ} → Result A → Option Exc
raised_of (ok _) = none
raised_of (err e) = some e

module _ {S Pool Conn Q P D B : Type 0} (driver : Driver S Pool Conn)
    (execute : Conn → List Statement → S → Result (Unit {0}) × S)
    (insert_key : Conn → S → Result Account × S) (playwright : Playwright P D B)
    (starts stops : List (Option (Hook Q))) where
  -- The database with its server, the providers, the task of the checker, and the workers with the
  -- processes of their browsers.
  pub record Service : Type 0 where
    pub database : Database Pool
    pub server : S
    pub providers : Q
    pub checking : Bool
    pub regions : Regions playwright
    pub processes : P

  abbrev pub with_database : Service → Option Exc × Database Pool × S → Option Exc × Service
  with_database v (raised, database, server) =
      (raised, record v { database = database; server = server })

  abbrev pub with_server {ℓ} : {A : Type ℓ} → Service → Result A × S → Option Exc × Service
  with_server v (result, server) = (raised_of result, record v { server = server })

  abbrev pub with_providers : Service → Option Exc × Q → Option Exc × Service
  with_providers v (raised, providers) = (raised, record v { providers = providers })

  abbrev pub with_workers : Service → Option Exc × Regions playwright × P → Option Exc × Service
  with_workers v (raised, regions, processes) =
      (raised, record v { regions = regions; processes = processes })

  abbrev pub with_processes : Service → Option Exc × P → Option Exc × Service
  with_processes v (raised, processes) = (raised, record v { processes = processes })

  unfoldable pub parts : Parts Service
  parts = record {
    connect = λ dsn min_pool max_pool v. with_database v (
        connect driver (record v.database { dsn = dsn; min_pool = min_pool; max_pool = max_pool })
          v.server);
    run_migrations = λ v. with_server v (run_migrations driver execute v.database v.server);
    start_providers = λ v. with_providers v (call_all starts v.providers);
    start_checker = λ v. (none, record v { checking = true });
    start_workers = λ v. with_workers v (start_regions playwright v.regions v.processes);
    create_default_key = λ v. with_server v (with_connection driver v.database insert_key v.server);
    stop_checker = λ v. (none, record v { checking = false });
    stop_workers = λ v. with_processes v (stop_regions playwright v.regions v.processes);
    stop_providers = λ v. with_providers v (call_all stops v.providers);
    disconnect = λ v. with_database v (disconnect driver v.database v.server);
  }
