-- ===== src/Usage/Route.antt =====
-- The usage route, asb_api/api/routes/usage.py, over either of the two trackers.
use asb_cloud_api.Base.{ℕ, String, Option, none, some, string_eq}
use asb_cloud_api.Http.{Result, ok, raise_api_error}
use asb_cloud_api.RateLimit.{Limits}
use asb_cloud_api.Usage.{UsageTracker, UsageInfo, get_usage_info}
use asb_cloud_api.Database.Usage as Postgres
use asb_cloud_api.Database.Usage.{DateArgument, UsageDb, date_of}

-- The tracker that startup sets, with its state.
pub data Tracker : Type 0 where
  in_memory : UsageTracker → Tracker
  in_postgres : UsageDb → Tracker

-- `usage_tracker.get_usage_info`, at a time in microseconds.
unfoldable pub tracker_info :
    DateArgument → ℕ → String → String → Limits → Tracker → Result UsageInfo × Tracker
tracker_info to_date now key_id tier limits (in_memory u) =
    let (info, u') = get_usage_info (date_of now) key_id tier limits u in (ok info, in_memory u')
tracker_info to_date now key_id tier limits (in_postgres db) =
    (Postgres.get_usage_info to_date now key_id tier limits db, in_postgres db)

-- `get_usage`; `tier` is what `_get_tier` finds for the key.
unfoldable pub get_usage :
    DateArgument → ℕ → String → String → Limits → Option Tracker → Result UsageInfo × Option Tracker
get_usage to_date now key_id tier limits none =
    (raise_api_error 503 "SERVICE_NOT_INITIALIZED" "Usage tracker not initialized", none)
get_usage to_date now key_id tier limits (some tracker) =
    let (info, tracker') = tracker_info to_date now key_id tier limits tracker in
    (info, some tracker')
