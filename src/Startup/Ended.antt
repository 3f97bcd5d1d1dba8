-- ===== src/Startup/Ended.antt =====
-- A whole life of the service: a startup that succeeds, and a shutdown whose stops raise nothing.
use asb_cloud_api.Base.{◌≡◌, refl, sym, ap, ◌∙◌, ℕ, String, Option, none, some, List, [], ◌∷◌, map}
use asb_cloud_api.Http.{Exc, Result}
use asb_cloud_api.Accounts.{Account}
use asb_cloud_api.Database.Connection.{Driver, Database, disconnect-none}
use asb_cloud_api.Database.Migrations.{Statement}
use asb_cloud_api.Runner.Lifecycle.{Playwright, Counted}
use asb_cloud_api.Pool.Lifecycle.{
  Regions, new_workers, start_regions, stop_regions, start_and_stop, start_and_stop-alive,
}
use asb_cloud_api.Providers.Registry.Lifecycle.{Hook}
use asb_cloud_api.Startup.{Stop, shutdown}
use asb_cloud_api.Startup.Wiring.{
  Parts, StartupConfig, Wired, nothing_wired, database_dsn, State, open_database, wire,
  startup_with, startup, if_set, stops, default,
}
use asb_cloud_api.Startup.Served.{backend_of, is_postgres, startup-Shares}
use asb_cloud_api.Startup.Steps.{
  shutdown-none, and_then-keeps, shutdown-three, shutdown-last, startup_with-steps,
}
use asb_cloud_api.Startup.Service.{Service, parts}

module _ {S Pool Conn Q P D B : Type 0} (driver : Driver S Pool Conn)
    (execute : Conn → List Statement → S → Result (Unit {0}) × S)
    (insert_key : Conn → S → Result Account × S) (playwright : Playwright P D B)
    (starts ends : List (Option (Hook Q))) (cfg : StartupConfig) where
  abbrev Live : Type 0
  Live = Service driver execute insert_key playwright starts ends

  abbrev live_parts : Parts Live
  live_parts = parts driver execute insert_key playwright starts ends

  -- The workers of a service.
  abbrev workers_of : Live → Regions playwright × P
  workers_of v = (v.regions, v.processes)

  -- What a start of the workers of a service leaves.
  abbrev after_start : Regions playwright × P → Regions playwright × P
  after_start (regions, processes) =
      let (_, regions', processes') = start_regions playwright regions processes in
      (regions', processes')

  abbrev stop_started : Regions playwright × P → Option Exc × P
  stop_started (regions, processes) = stop_regions playwright regions processes

  opened-workers :
      (dsn : Option String) (w w' : Wired) (v v' : Live)
      → open_database live_parts cfg dsn (w, v) ≡ (none, (w', v'))
      → workers_of v' ≡ workers_of v
  unfolding open_database parts
  opened-workers none w w' v v' e =
      ap (λ (r : Option Exc × State live_parts cfg). workers_of r.1.1) (sym e)
  opened-workers (some dsn) w w' v v' e =
      ap (λ (r : Option Exc × State live_parts cfg). workers_of r.1.1) (sym e)
      ∙ and_then-keeps workers_of
          (live_parts.connect dsn (default 5 cfg.min_pool) (default 20 cfg.max_pool) v)
          live_parts.run_migrations (λ u. refl)

  wired-workers :
      (dsn : Option String) (w w' : Wired) (v v' : Live)
      → wire live_parts cfg dsn (w, v) ≡ (none, (w', v'))
      → workers_of v' ≡ workers_of v
  unfolding wire parts
  wired-workers none w w' v v' e =
      ap (λ (r : Option Exc × State live_parts cfg). workers_of r.1.1) (sym e)
  wired-workers (some dsn) w w' v v' e =
      ap (λ (r : Option Exc × State live_parts cfg). workers_of r.1.1) (sym e)

  -- A startup that succeeded has started the workers, and changed them in no other way.
  startup-workers :
      (w : Wired) (v v' : Live)
      → startup live_parts cfg (nothing_wired, v) ≡ (none, (w, v'))
      → workers_of v' ≡ after_start (workers_of v)
  unfolding startup parts
  startup-workers w v v' e =
      let dsn = database_dsn cfg in
      let (w1, w4, v1, v2, v3, v4, opened, at2, at3, at4, wired) =
        startup_with-steps live_parts cfg dsn w v v' e in
      wired-workers dsn w4 w v4 v' wired
      ∙ sym (ap workers_of at4)
      ∙ ap after_start (
          sym (ap workers_of at3)
          ∙ sym (ap workers_of at2)
          ∙ opened-workers dsn nothing_wired w1 v v1 opened)

  -- Without the URL of a database a startup leaves the database as it was.
  startup_with-database :
      (w : Wired) (v v' : Live)
      → startup_with live_parts cfg none (nothing_wired, v) ≡ (none, (w, v'))
      → v'.database ≡ v.database
  unfolding open_database wire parts
  startup_with-database w v v' e =
      let (w1, w4, v1, v2, v3, v4, opened, at2, at3, at4, wired) =
        startup_with-steps live_parts cfg none w v v' e in
      let database_in : Option Exc × State live_parts cfg → Database Pool =
        λ (r : Option Exc × State live_parts cfg). r.1.1.database in
      let database_of : Live → Database Pool = λ (u : Live). u.database in
      sym (ap database_in wired)
      ∙ sym (ap database_of at4)
      ∙ sym (ap database_of at3)
      ∙ sym (ap database_of at2)
      ∙ sym (ap database_in opened)

  -- A shutdown whose stops raised nothing has stopped the workers.
  shutdown-workers :
      (w : Wired) (v v' v'' : Live)
      → startup live_parts cfg (nothing_wired, v) ≡ (none, (w, v'))
      → shutdown (stops live_parts cfg w) v' ≡ ([], v'')
      → ((stop_regions playwright v'.regions v'.processes).0 ≡ none)
        × (v''.processes ≡ (stop_regions playwright v'.regions v'.processes).1)
  unfolding parts
  shutdown-workers w v v' v'' up down =
      let (_, all) = startup-Shares live_parts cfg v v' w up in
      let has_database = is_postgres (backend_of (database_dsn cfg)) in
      let (workers, rest) =
        shutdown-three live_parts.stop_checker live_parts.stop_workers live_parts.stop_providers
          (if_set live_parts cfg has_database live_parts.disconnect ∷ []) v' v''
          (sym (ap (λ (l : List (Option (Stop Live))). shutdown l v') all) ∙ down) in
      (
        workers,
        shutdown-last live_parts cfg has_database live_parts.disconnect (λ (u : Live). u.processes)
            _ v'' (λ u. refl) rest,
      )

  -- The last stop: a database that was connected is disconnected.
  shutdown-pool :
      (dsn : Option String) (u last : Live)
      → (dsn ≡ none → u.database.pool ≡ none)
      → shutdown (if_set live_parts cfg (is_postgres (backend_of dsn)) live_parts.disconnect ∷ []) u
        ≡ ([], last)
      → last.database.pool ≡ none
  unfolding shutdown parts
  shutdown-pool none u last unset e =
      ap (λ (r : List Exc × Live). r.1.database.pool) (sym e) ∙ unset refl
  shutdown-pool (some dsn) u last unset e =
      let (raised, rest) = shutdown-none live_parts.disconnect [] u last e in
      ap (λ (r : List Exc × Live). r.1.database.pool) (sym rest)
      ∙ disconnect-none driver u.database u.server raised

  module _ (c : Counted playwright) where
    -- After a startup that succeeds, with new workers and a database that has no pool yet, a shutdown
    -- whose stops raise nothing leaves as many browsers and drivers running as there were before, and
    -- no pool of connections.
    pub shutdown-startup :
        (sizes : List ℕ) (w : Wired) (v v' v'' : Live)
        → v.regions ≡ map (new_workers playwright) sizes
        → v.database.pool ≡ none
        → startup live_parts cfg (nothing_wired, v) ≡ (none, (w, v'))
        → shutdown (stops live_parts cfg w) v' ≡ ([], v'')
        → (c.alive v''.processes ≡ c.alive v.processes) × (v''.database.pool ≡ none)
    unfolding parts startup
    shutdown-startup sizes w v v' v'' new unset up down =
        let (_, all) = startup-Shares live_parts cfg v v' w up in
        let dsn = database_dsn cfg in
        let started = startup-workers w v v' up in
        let (stopped, processes) = shutdown-workers w v v' v'' up down in
        let (_, rest) =
          shutdown-three live_parts.stop_checker live_parts.stop_workers live_parts.stop_providers
            (if_set live_parts cfg (is_postgres (backend_of dsn)) live_parts.disconnect ∷ []) v' v''
            (sym (ap (λ (l : List (Option (Stop Live))). shutdown l v') all) ∙ down) in
        let same : stop_regions playwright v'.regions v'.processes
            ≡ start_and_stop playwright sizes v.processes =
          ap stop_started started ∙ ap (λ r. stop_started (after_start (r, v.processes))) new in
        (
          ap c.alive processes
              ∙ ap (λ (r : Option Exc × P). c.alive r.1) same
              ∙ start_and_stop-alive playwright c sizes v.processes
                  (sym (ap (λ (r : Option Exc × P). r.0) same) ∙ stopped),
          shutdown-pool dsn _ v''
              (λ is_none.
                ap (λ (d : Database Pool). d.pool)
                  (startup_with-database w v v'
                    (sym (ap (λ d. startup_with live_parts cfg d (nothing_wired, v)) is_none) ∙ up))
                ∙ unset)
              rest,
        )
