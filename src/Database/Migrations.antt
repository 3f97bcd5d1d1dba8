-- ===== src/Database/Migrations.antt =====
-- The tables of the service: `run_migrations` of asb_api/db/connection.py. The catalog of the database
-- holds its tables with their columns, and its indexes; types and constraints are texts.
pub mod Script
pub mod Twice
use asb_cloud_api.Base.{
  String, Bool, Option, none, some, List, [], ◌∷◌, ◌++◌, any_of, ◌==◌, contains, string_eq,
  if◌then◌else◌,
}
use asb_cloud_api.Base.Dict.{Dict, lookup, insert}
use asb_cloud_api.Http.{Exc, Result, ok, err, other_error, ◌>>=◌}
use asb_cloud_api.Database.Connection.{Driver, Database, with_connection}

pub record Column : Type 0 where
  pub name : String
  pub declared : String

abbrev pub column : String → String → Column
column name declared = record { name = name; declared = declared }

-- The statements of the script, all of them `IF NOT EXISTS`. A table has a name, its columns and its
-- own constraint; an index has a name, a table and the text of what it is on.
pub data Statement : Type 0 where
  create_table : String → List Column → String → Statement
  create_index : String → String → String → Statement
  add_column : String → Column → Statement

pub record Catalog : Type 0 where
  pub tables : Dict String (List Column)
  pub indexes : List String

abbrev pub has_column : String → List Column → Bool
has_column name = any_of (λ c. c.name == name)

abbrev pub undefined_table : Exc
undefined_table = other_error "UndefinedTableError"

-- Whether Postgres takes an index on a text is a parameter.
module _ (accepts : String → Bool) where
  abbrev pub table_made : String → List Column → Catalog → Option (List Column) → Catalog
  table_made name columns c none = record c { tables = insert name columns c.tables }
  table_made name columns c (some _) = c

  abbrev pub index_made : String → String → Catalog → Option (List Column) → Result Catalog
  index_made name on c none = err undefined_table
  index_made name on c (some _) =
      if accepts on
      then (if contains c.indexes name then ok c else ok (record c { indexes = name ∷ c.indexes }))
      else err (other_error "InvalidObjectDefinitionError")

  abbrev pub column_made : String → Column → Catalog → Option (List Column) → Result Catalog
  column_made table new c none = err undefined_table
  column_made table new c (some columns) =
      if has_column new.name columns
      then ok c
      else ok (record c { tables = insert table (columns ++ (new ∷ [])) c.tables })

  unfoldable pub apply : Statement → Catalog → Result Catalog
  apply (create_table name columns constraint) c =
      ok (table_made name columns c (lookup name c.tables))
  apply (create_index name table on) c = index_made name on c (lookup table c.tables)
  apply (add_column table new) c = column_made table new c (lookup table c.tables)

  -- The script is one command, so one transaction: an error leaves the catalog as it was.
  unfoldable pub run_script : List Statement → Catalog → Result Catalog
  run_script [] c = ok c
  run_script (s ∷ script) c = apply s c >>= run_script script

-- The text that `run_migrations` executes.
unfoldable pub script : List Statement
script =
    create_table "api_keys"
      (column "key_id" "VARCHAR(32) PRIMARY KEY"
        ∷ column "key_hash" "TEXT NOT NULL"
        ∷ column "tier" "VARCHAR(16) NOT NULL DEFAULT 'free'"
        ∷ column "owner_email" "TEXT"
        ∷ column "created_at" "TIMESTAMPTZ NOT NULL DEFAULT NOW()"
        ∷ column "revoked" "BOOLEAN NOT NULL DEFAULT FALSE"
        ∷ [])
      "UNIQUE(key_hash)"
    ∷ create_table "sessions"
        (column "session_id" "VARCHAR(64) PRIMARY KEY"
          ∷ column "key_id" "VARCHAR(32) NOT NULL REFERENCES api_keys(key_id) ON DELETE CASCADE"
          ∷ column "region" "VARCHAR(8)"
          ∷ column "fingerprint" "TEXT"
          ∷ column "cookies_enc" "BYTEA"
          ∷ column "created_at" "TIMESTAMPTZ NOT NULL DEFAULT NOW()"
          ∷ column "last_used" "TIMESTAMPTZ NOT NULL DEFAULT NOW()"
          ∷ column "request_count" "INTEGER NOT NULL DEFAULT 0"
          ∷ column "expires_at" "TIMESTAMPTZ NOT NULL"
          ∷ column "deleted_at" "TIMESTAMPTZ"
          ∷ [])
        ""
    ∷ create_index "idx_sessions_key_id" "sessions" "key_id"
    ∷ create_index "idx_sessions_expires" "sessions" "expires_at WHERE deleted_at IS NULL"
    ∷ create_table "usage_records"
        (column "id" "BIGSERIAL PRIMARY KEY"
          ∷ column "key_id" "VARCHAR(32) NOT NULL REFERENCES api_keys(key_id) ON DELETE CASCADE"
          ∷ column "request_id" "VARCHAR(32) NOT NULL"
          ∷ column "domain" "VARCHAR(255)"
          ∷ column "status" "VARCHAR(16) NOT NULL"
          ∷ column "duration_ms" "INTEGER NOT NULL"
          ∷ column "block_detected" "BOOLEAN NOT NULL DEFAULT FALSE"
          ∷ column "region" "VARCHAR(8)"
          ∷ column "created_at" "TIMESTAMPTZ NOT NULL DEFAULT NOW()"
          ∷ [])
        ""
    ∷ create_index "idx_usage_key_date" "usage_records" "key_id, DATE(created_at)"
    ∷ create_table "daily_usage"
        (column "key_id" "VARCHAR(32) NOT NULL REFERENCES api_keys(key_id) ON DELETE CASCADE"
          ∷ column "date" "DATE NOT NULL"
          ∷ column "total_requests" "INTEGER NOT NULL DEFAULT 0"
          ∷ column "total_duration_ms" "BIGINT NOT NULL DEFAULT 0"
          ∷ column "block_count" "INTEGER NOT NULL DEFAULT 0"
          ∷ [])
        "PRIMARY KEY (key_id, date)"
    ∷ create_table "audit_log"
        (column "id" "BIGSERIAL PRIMARY KEY"
          ∷ column "key_id" "VARCHAR(32) REFERENCES api_keys(key_id) ON DELETE SET NULL"
          ∷ column "action" "VARCHAR(32) NOT NULL"
          ∷ column "domain" "VARCHAR(255)"
          ∷ column "request_id" "VARCHAR(32)"
          ∷ column "status" "VARCHAR(16)"
          ∷ column "duration_ms" "INTEGER"
          ∷ column "metadata" "JSONB"
          ∷ column "created_at" "TIMESTAMPTZ NOT NULL DEFAULT NOW()"
          ∷ [])
        ""
    ∷ create_index "idx_audit_key" "audit_log" "key_id"
    ∷ create_index "idx_audit_date" "audit_log" "created_at"
    ∷ add_column "api_keys" (column "stripe_customer_id" "TEXT")
    ∷ add_column "api_keys" (column "stripe_subscription_id" "TEXT")
    ∷ add_column "api_keys" (column "subscription_status" "TEXT")
    ∷ add_column "api_keys" (column "license_type" "TEXT")
    ∷ add_column "api_keys" (column "license_key" "TEXT")
    ∷ create_table "stripe_events"
        (column "event_id" "TEXT PRIMARY KEY"
          ∷ column "event_type" "TEXT NOT NULL"
          ∷ column "processed_at" "TIMESTAMPTZ NOT NULL DEFAULT NOW()"
          ∷ [])
        ""
    ∷ []

-- `run_migrations`; `execute` is the method of a connection.
unfoldable pub run_migrations :
    {S Pool Conn : Type 0}
    → Driver S Pool Conn
    → (Conn → List Statement → S → Result (Unit {0}) × S)
    → Database Pool
    → S
    → Result (Unit {0}) × S
run_migrations driver execute db s = with_connection driver db (λ conn s'. execute conn script s') s
