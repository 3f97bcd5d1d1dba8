-- ===== src/Database/Usage.antt =====
-- Usage in Postgres: asb_api/db/usage.py, asb_api/jobs/daily_rollup.py and the tables of monthly
-- quotas in asb_api/billing/__init__.py. Times are in microseconds and a date is its number of days
-- from the epoch, in UTC. Rates are US dollars in thousandths. What asyncpg makes of the text of a date
-- that is passed for a parameter of type DATE is an argument.
pub mod Dates
use asb_cloud_api.Base.{
  ℕ, suc, ◌+◌, ◌-◌, ◌*◌, ◌/◌, String, Bool, true, false, ◌==◌, ◌&&◌, ◌||◌, Option, none, some, List,
  [], ◌∷◌, ◌++◌, leb, nat_eq, string_eq, if◌then◌else◌,
}
use asb_cloud_api.Base.Int.{ℤ, pos}
use asb_cloud_api.Base.Dict.{Dict, get_or, insert}
use asb_cloud_api.Http.{Exc, Result, ok, err}
use asb_cloud_api.RateLimit.{Limits, no_limits}
use asb_cloud_api.Usage.{UsageInfo}

-- What the code writes of a request.
pub record Request : Type 0 where
  pub key_id : String
  pub request_id : String
  pub domain : Option String
  pub status : String
  pub duration_ms : ℕ
  pub block_detected : Bool
  pub region : Option String

-- A row of `usage_records`; the server sets its time.
pub record UsageRecord : Type 0 where
  pub request : Request
  pub created_at : ℕ

pub record Totals : Type 0 where
  pub total_requests : ℕ
  pub total_duration_ms : ℕ
  pub block_count : ℕ

-- A row of `daily_usage`.
pub record DailyRow : Type 0 where
  pub key_id : String
  pub date : ℕ
  pub totals : Totals

pub record UsageDb : Type 0 where
  pub records : List UsageRecord
  pub daily : List DailyRow

abbrev pub day : ℕ
day = 86400000000

-- `DATE(created_at)`
abbrev pub date_of : ℕ → ℕ
date_of t = t / day

abbrev pub no_totals : Totals
no_totals = record { total_requests = 0; total_duration_ms = 0; block_count = 0 }

abbrev pub add_request : Request → Totals → Totals
add_request r t = record {
  total_requests = suc t.total_requests;
  total_duration_ms = r.duration_ms + t.total_duration_ms;
  block_count = (if r.block_detected then 1 else 0) + t.block_count;
}

-- `COUNT(*)` and the two sums over the rows of a key and a date.
unfoldable pub raw_totals : String → ℕ → List UsageRecord → Totals
raw_totals key_id date [] = no_totals
raw_totals key_id date (r ∷ rows) =
    let rest = raw_totals key_id date rows in
    if r.request.key_id == key_id && date_of r.created_at == date
    then add_request r.request rest
    else rest

unfoldable pub find_daily : String → ℕ → List DailyRow → Option Totals
find_daily key_id date [] = none
find_daily key_id date (row ∷ rows) =
    let rest = find_daily key_id date rows in
    if row.key_id == key_id && row.date == date then some row.totals else rest

unfoldable pub record_request : ℕ → Request → UsageDb → UsageDb
record_request db_now r db = record db {
  records = db.records ++ (record { request = r; created_at = db_now } ∷ []);
}

unfoldable pub increment : ℕ → String → UsageDb → UsageDb
increment db_now key_id = record_request db_now (record {
  key_id = key_id;
  request_id = "unknown";
  domain = none;
  status = "success";
  duration_ms = 0;
  block_detected = false;
  region = none;
})

-- asyncpg's conversion of an argument of a query, the text of a day, to the type DATE.
abbrev pub DateArgument : Type 0
DateArgument = ℕ → Result ℕ

abbrev pub empty_db : UsageDb
empty_db = record { records = []; daily = [] }

-- The two queries for a date.
abbrev pub totals_on : String → ℕ → UsageDb → Totals
totals_on key_id date db = elim (find_daily key_id date db.daily) [
  | some totals ↦ totals
  | none ↦ raw_totals key_id date db.records
]

abbrev pub totals_of : String → UsageDb → Result ℕ → Result Totals
totals_of key_id db (err e) = err e
totals_of key_id db (ok date) = ok (totals_on key_id date db)

unfoldable pub get_daily_usage : DateArgument → String → ℕ → UsageDb → Result Totals
get_daily_usage to_date key_id date db = totals_of key_id db (to_date date)

abbrev pub count_of : Result Totals → Result ℕ
count_of (err e) = err e
count_of (ok usage) = ok usage.total_requests

unfoldable pub get : DateArgument → ℕ → String → UsageDb → Result ℕ
get to_date now key_id db = count_of (get_daily_usage to_date key_id (date_of now) db)

abbrev pub info_of : String → ℕ → ℤ → Result ℕ → Result UsageInfo
info_of tier today limit (err e) = err e
info_of tier today limit (ok count) =
    ok (record { tier = tier; requests_used = count; requests_limit = limit; reset_at = today })

-- `reset_at` is the end of the day.
unfoldable pub get_usage_info :
    DateArgument → ℕ → String → String → Limits → UsageDb → Result UsageInfo
get_usage_info to_date now key_id tier limits db =
    let tier_cfg = get_or tier (get_or "free" no_limits limits) limits in
    info_of tier (date_of now) (elim tier_cfg.requests [ none ↦ pos 500 | some n ↦ n ])
      (get to_date now key_id db)

-- The rows of a date, `GROUP BY key_id`.
unfoldable pub group_by_key : ℕ → List UsageRecord → Dict String Totals
group_by_key date [] = []
group_by_key date (r ∷ rows) =
    let groups = group_by_key date rows in
    if date_of r.created_at == date
    then insert r.request.key_id (add_request r.request (get_or r.request.key_id no_totals groups))
        groups
    else groups

-- `INSERT ... ON CONFLICT (key_id, date) DO UPDATE SET ... = EXCLUDED...`
unfoldable pub upsert : String → ℕ → Totals → List DailyRow → List DailyRow
upsert key_id date totals [] = record { key_id = key_id; date = date; totals = totals } ∷ []
upsert key_id date totals (row ∷ rows) =
    let rest = upsert key_id date totals rows in
    if row.key_id == key_id && row.date == date
    then record row { totals = totals } ∷ rows
    else row ∷ rest

unfoldable pub upsert_all : ℕ → Dict String Totals → List DailyRow → List DailyRow
upsert_all date [] rows = rows
upsert_all date ((key_id, totals) ∷ groups) rows =
    upsert_all date groups (upsert key_id date totals rows)

abbrev pub rolled_up : UsageDb → Result ℕ → Option Exc × UsageDb
rolled_up db (err e) = (some e, db)
rolled_up db (ok date) =
    (none, record db { daily = upsert_all date (group_by_key date db.records) db.daily })

unfoldable pub rollup_daily : DateArgument → ℕ → UsageDb → Option Exc × UsageDb
rollup_daily to_date date db = rolled_up db (to_date date)

-- The daily job: the roll-up of yesterday.
unfoldable pub run_job : DateArgument → ℕ → UsageDb → Option Exc × UsageDb
run_job to_date now = rollup_daily to_date (date_of (now - day))

-- `TIER_MONTHLY_REQUESTS`
abbrev pub tier_monthly_requests : Dict String ℕ
tier_monthly_requests =
    ("free", 500) ∷ ("starter", 25000) ∷ ("pro", 200000) ∷ ("enterprise", 9999999999) ∷ []

-- `TIER_OVERAGE_RATE`
abbrev pub tier_overage_rate : Dict String ℕ
tier_overage_rate = ("free", 0) ∷ ("starter", 2) ∷ ("pro", 1) ∷ ("enterprise", 0) ∷ []

-- (is_overage, overage_requests, overage_cost_usd)
abbrev pub Overage : Type 0
Overage = Bool × ℕ × ℕ

abbrev pub overage_of : ℕ → ℕ → Result ℕ → Result Overage
overage_of limit rate (err e) = err e
overage_of limit rate (ok total) =
    if leb total limit then ok (false, 0, 0) else ok (true, total - limit, (total - limit) * rate)

unfoldable pub check_overage : DateArgument → ℕ → String → String → UsageDb → Result Overage
check_overage to_date now key_id tier db =
    if tier == "free" || tier == "enterprise"
    then ok (false, 0, 0)
    else overage_of (get_or tier 0 tier_monthly_requests) (get_or tier 0 tier_overage_rate)
        (get to_date now key_id db)
