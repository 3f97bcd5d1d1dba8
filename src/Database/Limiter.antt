-- ===== src/Database/Limiter.antt =====
-- The rate limiter in Postgres: asb_api/db/rate_limiter.py. One call of `check_many` reads the rows
-- of `usage_records` as they are at its query; it writes nothing.
pub mod Window
pub mod Serial
pub mod Race
use asb_cloud_api.Base.{
  ℕ, ◌+◌, ◌*◌, ◌/◌, String, Bool, true, false, ◌==◌, ◌&&◌, Option, none, some, List, [], ◌∷◌, ltb,
  leb, length, keep_if, string_eq, if◌then◌else◌,
}
use asb_cloud_api.Base.Int.{ℤ, pos, ◌-ℤ◌, ltb_ℤ, leb_ℤ, eqb_ℤ, minus_one}
use asb_cloud_api.Http.{Result, ok, err, http, rate_limit_exceeded, overage_limit_exceeded}
use asb_cloud_api.RateLimit.{Limits, Grant, second, get_limits, at_least_zero, units}
use asb_cloud_api.Database.Usage.{DateArgument, UsageRecord, UsageDb, Overage, check_overage}

-- `WHERE key_id = $1 AND created_at > $2`, where $2 is the time less the window.
abbrev pub in_window : String → ℕ → ℕ → UsageRecord → Bool
in_window key_id now window_seconds r =
    r.request.key_id == key_id && ltb now (r.created_at + window_seconds * second)

unfoldable pub window_rows : String → ℕ → ℕ → UsageDb → List UsageRecord
window_rows key_id now window_seconds db = keep_if (in_window key_id now window_seconds) db.records

-- `ORDER BY created_at ASC LIMIT 1`
unfoldable pub oldest : List UsageRecord → Option ℕ
oldest [] = none
oldest (r ∷ rows) = elim (oldest rows) [
  | none ↦ some r.created_at
  | some t ↦ if leb r.created_at t then some r.created_at else some t
]

abbrev pub reset_after : ℕ → ℕ → ℤ
reset_after t window_seconds = pos ((t + window_seconds * second) / second)

abbrev pub reset_of : ℕ → ℕ → Option ℕ → ℤ
reset_of now window_seconds none = reset_after now window_seconds
reset_of now window_seconds (some t) = reset_after t window_seconds

abbrev pub refuse : ℤ → ℤ → ℤ → Result Grant
refuse max_requests remaining reset_at =
    err (http (rate_limit_exceeded max_requests remaining reset_at))

-- What is decided with the lock, on the rows in the window.
unfoldable pub decide : ℤ → ℕ → ℕ → ℕ → List UsageRecord → Result Grant
decide max_requests window_seconds requested now rows =
    let current_count = pos (length rows) in
    let remaining_before = max_requests -ℤ current_count in
    let reset_at = reset_of now window_seconds (oldest rows) in
    if leb_ℤ max_requests current_count
    then refuse max_requests (pos 0) reset_at
    else (if ltb_ℤ remaining_before (pos requested)
        then refuse max_requests (at_least_zero remaining_before) reset_at
        else ok (
          true,
          at_least_zero (remaining_before -ℤ pos requested),
          reset_after now window_seconds,
        ))

-- The cost to raise, where the tracker there is says that the quota is used up. What the tracker
-- raises is passed over; it is not `OverageLimitExceeded`.
unfoldable pub overage_cost : Option (Result Overage) → Option ℕ
overage_cost none = none
overage_cost (some (err _)) = none
overage_cost (some (ok (false, _, _))) = none
overage_cost (some (ok (true, _, cost))) = some cost

-- The check of the window. `acquired` says whether one of the two tries for the advisory lock had it.
unfoldable pub check_window : Limits → Bool → ℕ → String → String → ℤ → UsageDb → Result Grant
check_window limits acquired now key_id tier count db =
    let (max_requests, window_seconds) = get_limits limits tier in
    if eqb_ℤ max_requests minus_one
    then ok (true, minus_one, pos 0)
    else (if acquired
        then decide max_requests window_seconds (units count) now
            (window_rows key_id now window_seconds db)
        else refuse max_requests (pos 0) (reset_after now window_seconds))

unfoldable pub check_many :
    Limits → Option (Result Overage) → Bool → ℕ → String → String → ℤ → UsageDb → Result Grant
check_many limits overage acquired now key_id tier count db = elim (overage_cost overage) [
  | some cost ↦ err (http (overage_limit_exceeded cost))
  | none ↦ check_window limits acquired now key_id tier count db
]

unfoldable pub check :
    Limits → Option (Result Overage) → Bool → ℕ → String → String → UsageDb → Result Grant
check limits overage acquired now key_id tier db =
    check_many limits overage acquired now key_id tier (pos 1) db

-- The limiter with the tracker of asb_api/db/usage.py, on one database.
unfoldable pub check_many_billed :
    DateArgument → Limits → Bool → ℕ → String → String → ℤ → UsageDb → Result Grant
check_many_billed to_date limits acquired now key_id tier count db =
    check_many limits (some (check_overage to_date now key_id tier db)) acquired now key_id tier
      count db
