-- ===== src/Database/Limiter/Serial.antt =====
-- What the grants of the limiter in Postgres add up to where calls record their units before the
-- next call checks.
use asb_cloud_api.Base.{
  ◌≡◌, refl, ◌≢◌, inl, inr, ℕ, zero, suc, ◌+◌, ◌*◌, ◌≤◌, String, Bool, false, ◌==◌, ◌&&◌, Option,
  none, some, List, [], ◌∷◌, ◌++◌, arith, ltb, leb, length, keep_if, count_if, Option-cases, sym,
  nat_eq, string_eq, if◌then◌else◌,
}
use mathlib.Core.Logic.{dite}
use asb_cloud_api.Base.Int.{ℤ, pos, ◌≤ℤ◌, minus_one}
use asb_cloud_api.Http.{Result, ok, err, http, overage_limit_exceeded}
use asb_cloud_api.RateLimit.{Limits, Grant, second, get_limits, units}
use asb_cloud_api.RateLimit.Sliding.{Request}
use asb_cloud_api.Database.Usage.{
  UsageRecord, UsageDb, Overage, increment, record_request, empty_db,
}
use asb_cloud_api.Database.Limiter.{in_window, window_rows, overage_cost, check_many}
use asb_cloud_api.Database.Limiter.Window.{check_many_rows, recent-window_rows}

check_many-over :
    (limits : Limits) (overage : Option (Result Overage)) (acquired : Bool) (now : ℕ)
    (key tier : String) (count : ℤ) (cost : ℕ) (db : UsageDb)
    → overage_cost overage ≡ some cost
    → check_many limits overage acquired now key tier count db
      ≡ err (http (overage_limit_exceeded cost))
unfolding check_many
check_many-over limits overage acquired now key tier count cost db over = ground arith

check_many-fits :
    (limits : Limits) (overage : Option (Result Overage)) (acquired : Bool) (now : ℕ)
    (key tier : String) (count : ℤ) (g : Grant) (db : UsageDb)
    → check_many limits overage acquired now key tier count db ≡ ok g
    → (get_limits limits tier).0 ≢ minus_one
    → pos (length (window_rows key now (get_limits limits tier).1 db) + units count)
      ≤ℤ (get_limits limits tier).0
unfolding window_rows
check_many-fits limits overage acquired now key tier count g db granted limited =
    rw (recent-window_rows key now (get_limits limits tier).1 db.records)
      (elim (Option-cases (overage_cost overage)) [
        | inr (cost, over) ↦
            cc (check_many-over limits overage acquired now key tier count cost db over)
        | inl paid ↦ elim (check_many_rows limits overage acquired now key tier count db paid) [
          | inl (unlimited, _) ↦ elim (limited unlimited) [ ]
          | inr (_, inl (_, missed)) ↦ cc
          | inr (_, inr (_, inl fits)) ↦ fits.0
          | inr (_, inr (_, inr full)) ↦ cc (full.1)
        ]
      ])

-- The units of a grant, recorded one by one.
unfoldable pub record_units : ℕ → ℕ → String → UsageDb → UsageDb
record_units zero now key db = db
record_units (suc n) now key db = record_units n now key (increment now key db)

-- A call, with what the overage check and the tries for the lock come to.
pub record Call : Type 0 where
  pub request : Request
  pub overage : Option (Result Overage)
  pub acquired : Bool

abbrev pub ask : Limits → Call → UsageDb → Result Grant
ask limits call db =
    let r = call.request in
    check_many limits call.overage call.acquired r.at r.key_id r.tier r.count db

unfoldable pub record_result : Request → Result Grant → UsageDb → UsageDb
record_result r (ok _) db = record_units (units r.count) r.at r.key_id db
record_result r (err _) db = db

-- Each call records before the next one checks.
unfoldable pub run_serial : Limits → List Call → UsageDb → UsageDb
run_serial limits [] db = db
run_serial limits (call ∷ calls) db =
    run_serial limits calls (record_result call.request (ask limits call db) db)

-- The records of a key in the interval of a window that ends at `t`.
abbrev pub is_used : String → ℕ → ℕ → UsageRecord → Bool
is_used key seconds t r =
    r.request.key_id == key && ltb t (r.created_at + seconds * second) && leb r.created_at t

abbrev pub used : String → ℕ → ℕ → UsageDb → ℕ
used key seconds t db = count_if (is_used key seconds t) db.records

-- The row that an increment leaves.
abbrev pub unknown : ℕ → String → UsageRecord
unknown now key = record {
  request = record {
    key_id = key;
    request_id = "unknown";
    domain = none;
    status = "success";
    duration_ms = 0;
    block_detected = false;
    region = none;
  };
  created_at = now;
}

count_if-append_one :
    (p : UsageRecord → Bool) (rows : List UsageRecord) (r : UsageRecord)
    → count_if p (rows ++ (r ∷ [])) ≡ count_if p rows + (if p r then 1 else 0)
count_if-append_one p [] r = ground arith
count_if-append_one p (x ∷ rows) r = ground (arith, count_if-append_one p rows r)

used-increment :
    (key k : String) (seconds t now : ℕ) (db : UsageDb)
    → used key seconds t (increment now k db)
      ≡ used key seconds t db
        + (if k == key && ltb t (now + seconds * second) && leb now t then 1 else 0)
unfolding increment record_request
used-increment key k seconds t now db =
    count_if-append_one (is_used key seconds t) db.records (unknown now k)

used-record_units :
    (n : ℕ) (key k : String) (seconds t now : ℕ) (db : UsageDb)
    → used key seconds t (record_units n now k db)
      ≡ used key seconds t db
        + (if k == key && ltb t (now + seconds * second) && leb now t then n else 0)
unfolding record_units
used-record_units zero key k seconds t now db = ground arith
used-record_units (suc n) key k seconds t now db = ground (
  arith,
  used-record_units n key k seconds t now (increment now k db),
  used-increment key k seconds t now db,
)

-- What is used later in an interval that starts after the window does was in the window.
used_le :
    (key : String) (seconds now t : ℕ) (rows : List UsageRecord)
    → now ≤ t
    → count_if (is_used key seconds t) rows ≤ length (keep_if (in_window key now seconds) rows)
used_le key seconds now t [] le = omega arith
used_le key seconds now t (r ∷ rows) le = ground (arith, used_le key seconds now t rows le)

window_used_le :
    (key : String) (seconds now t : ℕ) (db : UsageDb)
    → now ≤ t
    → used key seconds t db ≤ length (window_rows key now seconds db)
unfolding window_rows
window_used_le key seconds now t db le = used_le key seconds now t db.records le

-- The grants of every key stay within its limit.
abbrev IsWithin : Limits → String → String → UsageDb → Type 0
IsWithin limits key tier db =
    (t : ℕ) → pos (used key (get_limits limits tier).1 t db) ≤ℤ (get_limits limits tier).0

-- Calls of the key are in its tier.
abbrev pub IsOf : String → String → List Call → Type 0
IsOf key tier [] = Unit
IsOf key tier (call ∷ calls) =
    ((call.request.key_id ≡ key → call.request.tier ≡ tier)) × IsOf key tier calls

record_result-IsWithin_ne :
    (limits : Limits) (key tier : String) (r : Request) (result : Result Grant) (db : UsageDb)
    → r.key_id ≢ key
    → IsWithin limits key tier db
    → IsWithin limits key tier (record_result r result db)
unfolding record_result
record_result-IsWithin_ne limits key tier r (err _) db ne within = within
record_result-IsWithin_ne limits key tier r (ok _) db ne within =
    let seconds = (get_limits limits tier).1 in
    λ t. ground (arith, used-record_units (units r.count) key r.key_id seconds t r.at db, within t)

record_result-IsWithin :
    (limits : Limits) (key tier : String) (r : Request) (result : Result Grant) (db : UsageDb)
    → r.key_id ≡ key
    → ((g : Grant)
        → result ≡ ok g
        → pos (length (window_rows key r.at (get_limits limits tier).1 db) + units r.count)
          ≤ℤ (get_limits limits tier).0)
    → IsWithin limits key tier db
    → IsWithin limits key tier (record_result r result db)
unfolding record_result
record_result-IsWithin limits key tier r (err _) db own fits within = within
record_result-IsWithin limits key tier r (ok g) db own fits within =
    let seconds = (get_limits limits tier).1 in
    λ t. ground (
      arith,
      used-record_units (units r.count) key r.key_id seconds t r.at db,
      within t,
      fits g refl,
      window_used_le key seconds r.at t db,
    )

run_serial-IsWithin :
    (limits : Limits) (key tier : String) (calls : List Call) (db : UsageDb)
    → (get_limits limits tier).0 ≢ minus_one
    → IsOf key tier calls
    → IsWithin limits key tier db
    → IsWithin limits key tier (run_serial limits calls db)
unfolding run_serial
run_serial-IsWithin limits key tier [] db limited own within = within
run_serial-IsWithin limits key tier (call ∷ calls) db limited own within =
    let r = call.request in
    let result = ask limits call db in
    run_serial-IsWithin limits key tier calls (record_result r result db) limited own.1 (
      dite (string_eq.dec r.key_id key)
        (λ same.
          record_result-IsWithin limits key tier r result db same
            (λ g granted. rw (sym same) (
              rw (sym (own.0 same)) (
                check_many-fits limits call.overage call.acquired r.at r.key_id r.tier r.count g db
                  granted (rw (own.0 same) limited))))
            within)
        (λ ne. record_result-IsWithin_ne limits key tier r result db ne within))

-- Where each call records its units before the next one checks, no interval as long as the window
-- holds more records of a key than its limit, whatever the tries for the lock, the overage checks
-- and the clock come to.
pub run_serial-bounded :
    (limits : Limits) (key tier : String) (calls : List Call) (t n : ℕ)
    → (get_limits limits tier).0 ≡ pos n
    → IsOf key tier calls
    → used key (get_limits limits tier).1 t (run_serial limits calls empty_db) ≤ n
run_serial-bounded limits key tier calls t n limited own =
    let limit : (get_limits limits tier).0 ≢ minus_one = λ e. cc in
    let start : IsWithin limits key tier empty_db = λ _. rw limited (omega arith) in
    let within = run_serial-IsWithin limits key tier calls empty_db limit own start t in
    omega (arith, rw limited at within)
