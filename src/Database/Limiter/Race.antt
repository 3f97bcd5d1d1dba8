-- ===== src/Database/Limiter/Race.antt =====
-- What the grants of the limiter in Postgres add up to where tasks check before any of them records.
use asb_cloud_api.Base.{
  ◌≡◌, refl, ap, ◌∙◌, ℕ, zero, suc, ◌+◌, ◌*◌, ◌<◌, ◌≤◌, inl, inr, true, none, String, List, [], ◌∷◌,
  ◌++◌, arith, length, keep_if, keep_if-append, length-append, replicate, string_eq,
}
use mathlib.Core.List.{append-nil}
use asb_cloud_api.Http.{Result, ok}
use asb_cloud_api.RateLimit.{Limits, Grant, second, get_limits, units}
use asb_cloud_api.Base.Int.{ℤ, pos, ◌-ℤ◌}
use asb_cloud_api.RateLimit.Sliding.{Request}
use asb_cloud_api.Database.Usage.{UsageDb, increment, record_request}
use asb_cloud_api.Database.Limiter.{in_window, window_rows, overage_cost, reset_after}
use asb_cloud_api.Database.Limiter.Window.{recent, recent-window_rows, check_many_rows}
use asb_cloud_api.Database.Limiter.Serial.{Call, ask, record_units, unknown}

-- A task checks, or records the units that it was granted.
pub data Step : Type 0 where
  checks : Call → Step
  records : Request → Step

-- The answers to the checks, and the database at the end.
unfoldable pub run_steps : Limits → List Step → UsageDb → List (Result Grant) × UsageDb
run_steps limits [] db = ([], db)
run_steps limits (checks call ∷ steps) db =
    let (answers, db') = run_steps limits steps db in (ask limits call db ∷ answers, db')
run_steps limits (records r ∷ steps) db =
    run_steps limits steps (record_units (units r.count) r.at r.key_id db)

in_window-length :
    (key : String) (seconds now : ℕ) (db : UsageDb)
    → 0 < seconds
    → length (window_rows key now seconds (increment now key db))
      ≡ suc (length (window_rows key now seconds db))
unfolding window_rows increment record_request
in_window-length key seconds now db some_time = ground (
  arith,
  keep_if-append (in_window key now seconds) db.records (unknown now key ∷ []),
  length-append (keep_if (in_window key now seconds) db.records) (unknown now key ∷ []),
)

length-record_units :
    (n : ℕ) (key : String) (seconds now : ℕ) (db : UsageDb)
    → 0 < seconds
    → length (window_rows key now seconds (record_units n now key db))
      ≡ n + length (window_rows key now seconds db)
unfolding record_units
length-record_units zero key seconds now db some_time = omega arith
length-record_units (suc n) key seconds now db some_time = omega (
  arith,
  length-record_units n key seconds now (increment now key db) some_time,
  in_window-length key seconds now db some_time,
)

run_steps-records :
    (limits : Limits) (k : ℕ) (r : Request) (seconds : ℕ) (db : UsageDb)
    → 0 < seconds
    → let (answers, db') = run_steps limits (replicate k (records r)) db in
      (answers ≡ [])
      × (length (window_rows r.key_id r.at seconds db')
          ≡ k * units r.count + length (window_rows r.key_id r.at seconds db))
unfolding run_steps
run_steps-records limits zero r seconds db some_time = (refl, omega arith)
run_steps-records limits (suc k) r seconds db some_time =
    let db' = record_units (units r.count) r.at r.key_id db in
    let (none_left, more) = run_steps-records limits k r seconds db' some_time in
    (
      none_left,
      omega (arith, more, length-record_units (units r.count) r.key_id seconds r.at db some_time),
    )

run_steps-checks :
    (limits : Limits) (k : ℕ) (call : Call) (g : Grant) (steps : List Step) (db : UsageDb)
    → ask limits call db ≡ ok g
    → let (answers, db') = run_steps limits steps db in
      ((run_steps limits (replicate k (checks call) ++ steps) db).0 ≡ replicate k (ok g) ++ answers)
      × ((run_steps limits (replicate k (checks call) ++ steps) db).1 ≡ db')
unfolding run_steps
run_steps-checks limits zero call g steps db granted = (refl, refl)
run_steps-checks limits (suc k) call g steps db granted =
    let (answers, same) = run_steps-checks limits k call g steps db granted in
    (rw granted (ap (λ x. ok g ∷ x) answers), same)

-- A call with the lock and without a payment to make is granted where its units fit.
ask-fits :
    (limits : Limits) (call : Call) (db : UsageDb) (n : ℕ)
    → let r = call.request in
      let seconds = (get_limits limits r.tier).1 in
      let count = length (recent r.key_id r.at (seconds * second) db.records) + units r.count in
      call.acquired ≡ true
      → overage_cost call.overage ≡ none
      → (get_limits limits r.tier).0 ≡ pos n
      → count ≤ n
      → ask limits call db ≡ ok (true, pos n -ℤ pos count, reset_after r.at seconds)
ask-fits limits call db n acquired unpaid limited fits =
    let r = call.request in
    let seconds = (get_limits limits r.tier).1 in
    let count = length (recent r.key_id r.at (seconds * second) db.records) + units r.count in
    elim (check_many_rows limits call.overage call.acquired r.at r.key_id r.tier r.count db
      unpaid) [
        | inl (unlimited, _) ↦ cc (unlimited, limited)
        | inr (_, inl (missed, _)) ↦ cc (missed, acquired)
        | inr (_, inr (_, inl (_, granted))) ↦
            granted ∙ ap (λ (l : ℤ). ok (true, l -ℤ pos count, reset_after r.at seconds)) limited
        | inr (_, inr (_, inr (full, _))) ↦ absurd (full (rw limited (omega arith)))
      ]

-- Any number of tasks that get the lock, have no payment to make and check at one time, before one of
-- them records, are all granted where the units of one fit next to the records younger than the
-- window, which is not empty, and each is told the same remainder; their records then all stand in
-- the window, however many they are.
pub run_steps-overshoots :
    (limits : Limits) (k : ℕ) (call : Call) (n : ℕ) (db : UsageDb)
    → let r = call.request in
      let seconds = (get_limits limits r.tier).1 in
      let count = length (recent r.key_id r.at (seconds * second) db.records) + units r.count in
      call.acquired ≡ true
      → overage_cost call.overage ≡ none
      → (get_limits limits r.tier).0 ≡ pos n
      → count ≤ n
      → 0 < (get_limits limits call.request.tier).1
      → let r = call.request in
        let seconds = (get_limits limits r.tier).1 in
        let steps = replicate k (checks call) ++ replicate k (records r) in
        let (answers, db') = run_steps limits steps db in
        (answers ≡ replicate k (ok (true, pos n -ℤ pos count, reset_after r.at seconds)))
        × (length (recent r.key_id r.at (seconds * second) db'.records)
            ≡ k * units r.count + length (recent r.key_id r.at (seconds * second) db.records))
unfolding window_rows
run_steps-overshoots limits k call n db acquired unpaid limited fits some_time =
    let r = call.request in
    let seconds = (get_limits limits r.tier).1 in
    let g : Grant = (
      true,
      pos n -ℤ pos (length (recent r.key_id r.at (seconds * second) db.records) + units r.count),
      reset_after r.at seconds,
    ) in
    let granted = ask-fits limits call db n acquired unpaid limited fits in
    let asked = run_steps-checks limits k call g (replicate k (records r)) db granted in
    let (no_answers, more) =
      run_steps-records limits k r (get_limits limits r.tier).1 db some_time in
    (
      asked.0 ∙ (rw no_answers (append-nil (replicate k (ok g)))),
      rw
          (
            asked.1,
            ← recent-window_rows r.key_id r.at seconds db.records,
            ← recent-window_rows r.key_id r.at seconds
                (run_steps limits (replicate k (records r)) db).1.records,
          )
          more,
    )
