-- ===== src/Database/Migrations/Twice.antt =====
-- The migrations of the service over the connection pool: what a run that succeeds leaves, and that none
-- does where the server refuses one of the indexes.
use asb_cloud_api.Base.{
  ◌≡◌, refl, sym, ◌≢◌, ap, ◌∙◌, [], ◌∷◌, String, Bool, true, false, ◌&&◌, Option, none, some, List,
  arith,
}
use asb_cloud_api.Http.{Exc, Result, ok, err}
use asb_cloud_api.Database.Connection.{
  Driver, Database, pool_of, with_connection, on_connection, after_release,
}
use asb_cloud_api.Database.Migrations.{
  Statement, create_table, create_index, add_column, Catalog, run_script, script, run_migrations,
}
use asb_cloud_api.Database.Migrations.Script.{all_hold, run_script-all_hold, all_hold-run_script}

-- All that the indexes of a script are on is taken.
abbrev takes_indexes : (String → Bool) → List Statement → Bool
takes_indexes accepts [] = true
takes_indexes accepts (create_table name columns constraint ∷ statements) =
    takes_indexes accepts statements
takes_indexes accepts (create_index name table on ∷ statements) =
    accepts on && takes_indexes accepts statements
takes_indexes accepts (add_column table new ∷ statements) = takes_indexes accepts statements

all_hold-takes_indexes :
    (accepts : String → Bool) (statements : List Statement) (c : Catalog)
    → all_hold accepts statements c ≡ true
    → takes_indexes accepts statements ≡ true
all_hold-takes_indexes accepts [] c h = refl
all_hold-takes_indexes accepts (create_table name columns constraint ∷ statements) c h =
    ground (arith, all_hold-takes_indexes accepts statements c)
all_hold-takes_indexes accepts (create_index name table on ∷ statements) c h =
    ground (arith, all_hold-takes_indexes accepts statements c)
all_hold-takes_indexes accepts (add_column table new ∷ statements) c h =
    ground (arith, all_hold-takes_indexes accepts statements c)

-- What a command comes to, beside what the script does to the catalog.
abbrev pub Executed : Catalog → Result Catalog → Result (Unit {0}) → Catalog → Type 0
Executed before (ok c) result after = (result ≡ ok tt) × (after ≡ c)
Executed before (err e) result after = (result ≡ err e) × (after ≡ before)

-- A server with a catalog, which commands change as one transaction and the pool does not.
pub record Server {S Pool Conn : Type 0} (driver : Driver S Pool Conn)
    (execute : Conn → List Statement → S → Result (Unit {0}) × S) : Type 0 where
  pub accepts : String → Bool
  pub catalog : S → Catalog
  pub executed :
      (conn : Conn) (statements : List Statement) (s : S)
      → Executed
          (catalog s)
          (run_script accepts statements (catalog s))
          (execute conn statements s).0
          (catalog (execute conn statements s).1)
  pub acquire_same : (pool : Pool) (s : S) → catalog (driver.acquire pool s).1 ≡ catalog s
  pub release_same :
      (pool : Pool) (conn : Conn) (s : S) → catalog (driver.release pool conn s).1 ≡ catalog s

module _ {S Pool Conn : Type 0} {driver : Driver S Pool Conn}
    {execute : Conn → List Statement → S → Result (Unit {0}) × S}
    (server : Server driver execute) where
  Executed-ok :
      (before : Catalog) (run : Result Catalog) (result : Result (Unit {0})) (after : Catalog)
      → Executed before run result after
      → result ≡ ok tt
      → run ≡ ok after
  Executed-ok before (ok c) result after h e = ap ok (sym h.1)
  Executed-ok before (err x) result after h e = cc (h.0, e)

  Executed-same :
      (before known : Catalog) (run : Result Catalog) (result : Result (Unit {0})) (after : Catalog)
      → Executed before run result after
      → before ≡ known
      → run ≡ ok known
      → after ≡ known
  Executed-same before known (ok c) result after h same e = cc h.1
  Executed-same before known (err x) result after h same e = cc

  after_release-ok :
      (result : Result (Unit {0})) (released : Option Exc × S)
      → (after_release driver result released).0 ≡ ok tt
      → (result ≡ ok tt) × ((after_release driver result released).1 ≡ released.1)
  after_release-ok result (none, s) e = (e, refl)
  after_release-ok result (some x, s) e = cc e

  after_release-state :
      (result : Result (Unit {0})) (released : Option Exc × S)
      → (after_release driver result released).1 ≡ released.1
  after_release-state result (none, s) = refl
  after_release-state result (some x, s) = refl

  on_connection-ok :
      (pool : Pool) (before : Catalog) (acquired : Result Conn × S)
      → server.catalog acquired.1 ≡ before
      → (on_connection driver pool (λ conn s. execute conn script s) acquired).0 ≡ ok tt
      → run_script server.accepts script before
        ≡ ok (
            server.catalog (on_connection driver pool (λ conn s. execute conn script s) acquired).1)
  on_connection-ok pool before (err x, s) same e = cc
  on_connection-ok pool before (ok conn, s) same e =
      let (result, s') = execute conn script s in
      let (done, at_end) = after_release-ok result (driver.release pool conn s') e in
      rw (at_end, server.release_same pool conn s', ← same)
        (Executed-ok (server.catalog s) (run_script server.accepts script (server.catalog s)) result
          (server.catalog s') (server.executed conn script s) done)

  on_connection-same :
      (pool : Pool) (before : Catalog) (acquired : Result Conn × S)
      → server.catalog acquired.1 ≡ before
      → run_script server.accepts script before ≡ ok before
      → server.catalog (on_connection driver pool (λ conn s. execute conn script s) acquired).1
        ≡ before
  on_connection-same pool before (err x, s) same again = same
  on_connection-same pool before (ok conn, s) same again =
      let (result, s') = execute conn script s in
      rw
        (after_release-state result (driver.release pool conn s'), server.release_same pool conn s')
        (Executed-same (server.catalog s) before
          (run_script server.accepts script (server.catalog s)) result (server.catalog s')
          (server.executed conn script s) same (rw same again))

  run_migrations-connected :
      (db : Database Pool) (pool : Pool) (s : S)
      → db.pool ≡ some pool
      → run_migrations driver execute db s
        ≡ on_connection driver pool (λ conn s'. execute conn script s') (driver.acquire pool s)
  unfolding run_migrations with_connection pool_of
  run_migrations-connected db pool s is_pool = rw is_pool refl

  by_pool :
      (db : Database Pool) (s : S) (found : Option Pool)
      → db.pool ≡ found
      → (run_migrations driver execute db s).0 ≡ ok tt
      → let after = (run_migrations driver execute db s).1 in
        (run_script server.accepts script (server.catalog s) ≡ ok (server.catalog after))
        × (run_script server.accepts script (server.catalog after) ≡ ok (server.catalog after)
            → server.catalog (run_migrations driver execute db after).1 ≡ server.catalog after)
  unfolding run_migrations with_connection pool_of
  by_pool db s none is_pool done = cc (rw is_pool at done)
  by_pool db s (some pool) is_pool done =
      let before = server.acquire_same pool s in
      let connected = run_migrations-connected db pool s is_pool in
      let after = (run_migrations driver execute db s).1 in
      (
        rw connected (
            on_connection-ok pool (server.catalog s) (driver.acquire pool s) before
              (rw connected at done)),
        λ again. rw (run_migrations-connected db pool after is_pool) (
            on_connection-same pool (server.catalog after) (driver.acquire pool after)
              (server.acquire_same pool after) again),
      )

  -- Migrations that succeed leave every table, index and column of the script in the catalog, and
  -- leave the catalog as it is when they run once more.
  run_migrations-twice :
      (db : Database Pool) (s : S)
      → (run_migrations driver execute db s).0 ≡ ok tt
      → let after = (run_migrations driver execute db s).1 in
        (all_hold server.accepts script (server.catalog after) ≡ true)
        × (server.catalog (run_migrations driver execute db after).1 ≡ server.catalog after)
  run_migrations-twice db s done =
      let (ran, again) = by_pool db s db.pool refl done in
      let after = server.catalog (run_migrations driver execute db s).1 in
      let there = run_script-all_hold server.accepts script (server.catalog s) after ran in
      (there, again (all_hold-run_script server.accepts script after there))

  by_result :
      (c : Catalog) (run : Result Catalog)
      → run_script server.accepts script c ≡ run
      → server.accepts "key_id, DATE(created_at)" ≡ false
      → (e : Exc) × (run_script server.accepts script c ≡ err e)
  unfolding script
  by_result c (err e) ran refused = (e, ran)
  by_result c (ok after) ran refused =
      let taken =
        all_hold-takes_indexes server.accepts script after
          (run_script-all_hold server.accepts script c after ran) in
      ground arith

  Executed-err :
      (before : Catalog) (run : Result Catalog) (result : Result (Unit {0})) (after : Catalog)
      (e : Exc)
      → Executed before run result after
      → run ≡ err e
      → after ≡ before
  Executed-err before (ok c) result after e h raised = cc raised
  Executed-err before (err x) result after e h raised = h.1

  on_connection-refused :
      (pool : Pool) (acquired : Result Conn × S)
      → server.accepts "key_id, DATE(created_at)" ≡ false
      → server.catalog (on_connection driver pool (λ conn s. execute conn script s) acquired).1
        ≡ server.catalog acquired.1
  on_connection-refused pool (err x, s) refused = refl
  on_connection-refused pool (ok conn, s) refused =
      let (result, s') = execute conn script s in
      let before = server.catalog s in
      let (e, raised) = by_result before (run_script server.accepts script before) refl refused in
      rw
        (after_release-state result (driver.release pool conn s'), server.release_same pool conn s')
        (Executed-err before (run_script server.accepts script before) result (server.catalog s') e
          (server.executed conn script s) raised)

  refused_with :
      (db : Database Pool) (s : S) (found : Option Pool)
      → db.pool ≡ found
      → server.accepts "key_id, DATE(created_at)" ≡ false
      → server.catalog (run_migrations driver execute db s).1 ≡ server.catalog s
  unfolding run_migrations with_connection pool_of
  refused_with db s none is_pool refused = rw is_pool refl
  refused_with db s (some pool) is_pool refused =
      rw (run_migrations-connected db pool s is_pool)
        (on_connection-refused pool (driver.acquire pool s) refused ∙ server.acquire_same pool s)

  -- Where the server does not take the index on the date of a request, as PostgreSQL does not take
  -- one on DATE of a time with time zone, the migrations do not succeed, from any catalog, and leave
  -- it as it is: none of the other tables, indexes and columns is made either.
  pub run_migrations-refused :
      (db : Database Pool) (s : S)
      → server.accepts "key_id, DATE(created_at)" ≡ false
      → ((run_migrations driver execute db s).0 ≢ ok tt)
        × (server.catalog (run_migrations driver execute db s).1 ≡ server.catalog s)
  unfolding script
  run_migrations-refused db s refused = (
    λ done.
        let (there, _) = run_migrations-twice db s done in
        let taken =
          all_hold-takes_indexes server.accepts script
            (server.catalog (run_migrations driver execute db s).1) there in
        ground arith,
    refused_with db s db.pool refl refused,
  )
