-- ===== src/Database/Connection.antt =====
-- The connection pool, class `Database` of asb_api/db/connection.py, and the way every operation of a
-- store takes a connection and gives it back. asyncpg's pool is a parameter over the state `S` of the
-- driver and the server.
use asb_cloud_api.Base.{◌≡◌, refl, ℕ, String, ◌==◌, Option, none, some, string_eq, if◌then◌else◌}
use asb_cloud_api.Http.{Exc, Result, ok, err, runtime_error}

-- What the code calls of asyncpg: `create_pool(dsn, min_size, max_size)`, and the methods `close`,
-- `acquire` and `release` of a pool.
pub record Driver (S Pool Conn : Type 0) : Type 0 where
  pub create_pool : String → ℕ → ℕ → S → Result Pool × S
  pub close : Pool → S → Option Exc × S
  pub acquire : Pool → S → Result Conn × S
  pub release : Pool → Conn → S → Option Exc × S

-- `class Database`
pub record Database (Pool : Type 0) : Type 0 where
  pub dsn : String
  pub min_pool : ℕ
  pub max_pool : ℕ
  pub pool : Option Pool

-- `dsn or os.environ.get("DATABASE_URL", "")`
abbrev pub dsn_of : Option String → Option String → String
dsn_of none none = ""
dsn_of none (some env) = env
dsn_of (some dsn) none = dsn
dsn_of (some dsn) (some env) = if dsn == "" then env else dsn

-- The constructor; `env` is DATABASE_URL of the environment.
unfoldable pub new_database :
    {Pool : Type 0} → Option String → Option String → ℕ → ℕ → Database Pool
new_database dsn env min_pool max_pool = record {
  dsn = dsn_of dsn env;
  min_pool = min_pool;
  max_pool = max_pool;
  pool = none;
}

-- The property `pool`.
unfoldable pub pool_of : {Pool : Type 0} → Database Pool → Result Pool
pool_of db = elim db.pool [
  | none ↦ err (runtime_error "Database not connected")
  | some pool ↦ ok pool
]

module _ {S Pool Conn : Type 0} (driver : Driver S Pool Conn) where
  abbrev connected : Database Pool → Result Pool × S → Option Exc × Database Pool × S
  connected db (ok pool, s) = (none, record db { pool = some pool }, s)
  connected db (err e, s) = (some e, db, s)

  -- `connect`
  unfoldable pub connect : Database Pool → S → Option Exc × Database Pool × S
  connect db s =
      if db.dsn == ""
      then (some (runtime_error "DATABASE_URL not set"), db, s)
      else connected db (driver.create_pool db.dsn db.min_pool db.max_pool s)

  abbrev closed : Database Pool → Option Exc × S → Option Exc × Database Pool × S
  closed db (none, s) = (none, record db { pool = none }, s)
  closed db (some e, s) = (some e, db, s)

  -- `disconnect`: a pool that does not close stays.
  unfoldable pub disconnect : Database Pool → S → Option Exc × Database Pool × S
  disconnect db s = elim db.pool [
    | none ↦ (none, db, s)
    | some pool ↦ closed db (driver.close pool s)
  ]

  closed-none :
      (db : Database Pool) (r : Option Exc × S)
      → (closed db r).0 ≡ none
      → (closed db r).1.pool ≡ none
  closed-none db (none, s) e = refl
  closed-none db (some x, s) e = cc e

  -- A `disconnect` that does not raise leaves no pool.
  pub disconnect-none :
      (db : Database Pool) (s : S) → (disconnect db s).0 ≡ none → (disconnect db s).1.pool ≡ none
  unfolding disconnect
  disconnect-none db s e = by_pool db.pool e
    where
      by_pool :
          (found : Option Pool)
          → (disconnect (record db { pool = found }) s).0 ≡ none
          → (disconnect (record db { pool = found }) s).1.pool ≡ none
      by_pool none at = refl
      by_pool (some pool) at = closed-none (record db { pool = some pool }) (driver.close pool s) at

  -- `Database.acquire` and `Database.release`.
  unfoldable pub acquire : Database Pool → S → Result Conn × S
  acquire db s = elim (pool_of db) [ err e ↦ (err e, s) | ok pool ↦ driver.acquire pool s ]

  unfoldable pub release : Database Pool → Conn → S → Option Exc × S
  release db conn s = elim db.pool [ none ↦ (none, s) | some pool ↦ driver.release pool conn s ]

  -- What an operation returns after its `finally`, whose exception takes the place of the result.
  abbrev pub after_release : {A : Type 0} → Result A → Option Exc × S → Result A × S
  after_release result (none, s) = (result, s)
  after_release result (some e, s) = (err e, s)

  abbrev pub on_connection :
      {A : Type 0} → Pool → (Conn → S → Result A × S) → Result Conn × S → Result A × S
  on_connection pool body (err e, s) = (err e, s)
  on_connection pool body (ok conn, s) =
      let (result, s') = body conn s in after_release result (driver.release pool conn s')

  -- `conn = await db.pool.acquire()`, `try: ... finally: await db.pool.release(conn)`
  unfoldable pub with_connection :
      {A : Type 0} → Database Pool → (Conn → S → Result A × S) → S → Result A × S
  with_connection db body s = elim (pool_of db) [
    | err e ↦ (err e, s)
    | ok pool ↦ on_connection pool body (driver.acquire pool s)
  ]
