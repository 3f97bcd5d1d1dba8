-- ===== src/Tests/Stores.antt =====
-- The stores in Postgres, and the promise of a session store, at concrete inputs.
use Prim.Native.Char.{char}
use asb_cloud_api.Tests.Codec.{dumps, loads, loads-dumps}
use asb_cloud_api.Base.{
  ◌≡◌, refl, ◌≢◌, ◌⊎◌, ◌+◌, ◌*◌, ◌≤◌, String, true, false, Option, none, some, List, [], ◌∷◌, ◌++◌,
  arith, leb, ltb, length, replicate, string_eq,
}
use asb_cloud_api.Base.Int.{◌-ℤ◌, pos, minus_one}
use asb_cloud_api.Http.{ok, err, Exc, other_error}
use asb_cloud_api.RateLimit.{second, Limits, get_limits, units}
use asb_cloud_api.RateLimit.Sliding
use asb_cloud_api.Usage.Route.{get_usage, in_postgres}
use asb_cloud_api.Sessions.{Fernet, Store}
use asb_cloud_api.Sessions.Expiry.{IsFaithful}
use asb_cloud_api.Sessions.Spec.{
  Call, create_session, get_session, set_cookies, count_request, delete_session, run, promises,
  no_entries,
}
use asb_cloud_api.Sessions.Spec.Memory.{memory_store, run_memory-promises}
use asb_cloud_api.Database.Sessions.{encrypt}
use asb_cloud_api.Database.Sessions.Rows.{IsVisible}
use asb_cloud_api.Database.Sessions.Fresh.{postgres_store}
use asb_cloud_api.Database.Sessions.Refines.{run_postgres-promises}
use asb_cloud_api.Database.Usage.{DateArgument, UsageDb, empty_db, run_job}
use asb_cloud_api.Database.Usage.Dates.{get_usage-refused}
use asb_cloud_api.Database.Limiter.{
  overage_cost, check_many, check_many_billed, refuse, reset_after,
}
use asb_cloud_api.Database.Limiter.Window.{
  Granted, Refused, recent, check_many_rows, check_many_billed-refused,
}
use asb_cloud_api.Database.Limiter.Serial.{ask, run_serial, used, run_serial-bounded}
use asb_cloud_api.Database.Limiter.Serial
use asb_cloud_api.Database.Limiter.Race.{checks, records, run_steps, run_steps-overshoots}

-- A stand-in for Fernet: a mark in front.
abbrev unmark : String → Option String
unmark String.[] = none
unmark (String.◌∷◌ c s) = some s

abbrev fernet : Fernet
fernet = record { encrypt = λ s. String.◌∷◌ (char 42 tt) s; decrypt = unmark }

abbrev store : Store
store = record {
  json = record { dumps = dumps; loads = loads };
  fernet = some fernet;
  ttl_seconds = 60;
}

store-IsFaithful : IsFaithful store
store-IsFaithful = record {
  loads-dumps = loads-dumps;
  decrypt-encrypt = λ f h s. let same : f ≡ fernet = cc h in rw same refl;
}

store-IsVisible : IsVisible store
unfolding encrypt
store-IsVisible c e = cc e

-- A session that is used, expires and is deleted.
abbrev calls : List Call
calls =
    record { at = 0; later = 1; action = create_session "a" "key_a" "us" none }
    ∷ record { at = 5; later = 6; action = set_cookies "sess_a" (("sid", "1") ∷ []) }
    ∷ record { at = 7; later = 8; action = count_request "sess_a" }
    ∷ record { at = 9; later = 9; action = get_session "sess_a" }
    ∷ record { at = 60000000; later = 60000000; action = get_session "sess_a" }
    ∷ record { at = 60000001; later = 60000002; action = delete_session "sess_a" }
    ∷ []

run_memory-promises_example :
    run (memory_store store) calls [] ≡ promises 60 (λ now exp. leb now exp) calls no_entries
run_memory-promises_example =
    run_memory-promises store 0 calls store-IsFaithful
      (omega arith, (omega arith, (omega arith, (omega arith, (omega arith, (omega arith, tt))))))

us-ne-empty : ◌≢◌ {A = String} "us" ""
us-ne-empty e = cc e

run_postgres-promises_example :
    run (postgres_store store) calls [] ≡ promises 60 (λ now exp. ltb now exp) calls no_entries
run_postgres-promises_example =
    run_postgres-promises store calls store-IsFaithful store-IsVisible
      ((refl, us-ne-empty), (tt, (tt, (tt, (tt, (tt, tt))))))

abbrev limits : Limits
limits = ("free", record { requests = some (pos 1); window_seconds = some 10 }) ∷ []

abbrev request : Sliding.Request
request = record { at = 20000000; key_id = "key_a"; tier = "free"; count = pos 1 }

abbrev call : Serial.Call
call = record { request = request; overage = none; acquired = true }

run_serial-bounded_example :
    used "key_a"
      (get_limits limits "free").1
      20000000
      (run_serial limits (call ∷ call ∷ []) empty_db)
    ≤ 1
unfolding get_limits string_eq
run_serial-bounded_example =
    run_serial-bounded limits "key_a" "free" (call ∷ call ∷ []) 20000000 1 refl
      (λ _. refl, (λ _. refl, tt))

-- A record in the window and one that has left it.
abbrev used_db : UsageDb
used_db = Serial.record_units 1 15000000 "key_a" (Serial.record_units 1 5 "key_a" empty_db)

check_many_rows_example :
    let limit = (get_limits limits "free").0 in
    let seconds = (get_limits limits "free").1 in
    let rows = recent "key_a" 20000000 (seconds * second) used_db.records in
    let result = check_many limits none true 20000000 "key_a" "free" (pos 1) used_db in
    ((limit ≡ minus_one) × (result ≡ ok (true, minus_one, pos 0)))
    ⊎ ((limit ≢ minus_one)
        × (((true ≡ false) × (result ≡ refuse limit (pos 0) (reset_after 20000000 seconds)))
            ⊎ ((true ≡ true)
                × (Granted limit seconds (units (pos 1)) 20000000 rows result
                    ⊎ Refused limit seconds (units (pos 1)) 20000000 rows result))))
unfolding overage_cost
check_many_rows_example =
    check_many_rows limits none true 20000000 "key_a" "free" (pos 1) used_db refl

-- The driver takes no text for a date.
abbrev data_error : Exc
data_error = other_error "DataError"

abbrev to_date : DateArgument
to_date _ = err data_error

check_many_billed-refused_example :
    check_many_billed to_date limits true 20000000 "key_a" "pro" (pos 1) used_db
    ≡ check_many limits none true 20000000 "key_a" "pro" (pos 1) used_db
check_many_billed-refused_example =
    check_many_billed-refused to_date data_error limits true 20000000 "key_a" "pro" (pos 1) used_db
      (λ _. refl)

get_usage-refused_example :
    ((get_usage to_date 20000000 "key_a" "pro" limits (some (in_postgres used_db))).0
      ≡ err data_error)
    × (run_job to_date 20000000 used_db ≡ (some data_error, used_db))
get_usage-refused_example =
    get_usage-refused to_date data_error (λ _. refl) 20000000 "key_a" "pro" limits used_db

-- Three tasks are granted where the limit is one.
run_steps-overshoots_example :
    let seconds = (get_limits limits "free").1 in
    let count =
      length (recent "key_a" 20000000 (seconds * second) empty_db.records) + units (pos 1) in
    let steps = replicate 3 (checks call) ++ replicate 3 (records request) in
    let (answers, db') = run_steps limits steps empty_db in
    (answers ≡ replicate 3 (ok (true, pos 1 -ℤ pos count, reset_after 20000000 seconds)))
    × (length (recent "key_a" 20000000 (seconds * second) db'.records)
        ≡ 3 * units (pos 1) + length (recent "key_a" 20000000 (seconds * second) empty_db.records))
unfolding get_limits string_eq overage_cost
run_steps-overshoots_example =
    run_steps-overshoots limits 3 call 1 empty_db refl refl refl (omega arith) (omega arith)
