-- ===== src/Database/Limiter/Window.antt =====
-- What the limiter in Postgres grants, and what its grants add up to, one after the other and at once.
use asb_cloud_api.Base.{
  ◌≡◌, refl, ◌≢◌, ◌⊎◌, inl, inr, ℕ, ◌+◌, ◌*◌, ◌≤◌, String, Bool, true, false, ◌==◌, ◌&&◌, suc, [],
  ◌∷◌, keep_if, if◌then◌else◌, Option, none, List, arith, leb, length, Bool-cases, nat_eq,
  string_eq,
}
use asb_cloud_api.Base.Int.{ℤ, pos, negsuc, eqb_ℤ_iff, ◌-ℤ◌, ◌≤ℤ◌, ltb_ℤ, leb_ℤ, eqb_ℤ, minus_one}
use asb_cloud_api.Http.{Exc, Result, ok}
use asb_cloud_api.RateLimit.{Limits, Grant, second, get_limits, at_least_zero, units}
use asb_cloud_api.Database.Usage.{DateArgument, UsageRecord, UsageDb, Overage}
use asb_cloud_api.Database.Usage.Dates.{Refuses, check_overage-refused}
use asb_cloud_api.Database.Limiter.{
  in_window, window_rows, oldest, reset_after, reset_of, refuse, decide, overage_cost, check_window,
  check_many, check_many_billed,
}

spent : (limit : ℤ) (n : ℕ) → leb_ℤ limit (pos n) ≡ true → at_least_zero (limit -ℤ pos n) ≡ pos 0
spent (pos a) n full = ground arith
spent (negsuc a) n full = ground arith

left :
    (limit : ℤ) (n requested : ℕ)
    → ltb_ℤ (limit -ℤ pos n) (pos requested) ≡ false
    → at_least_zero (limit -ℤ pos n -ℤ pos requested) ≡ limit -ℤ pos (n + requested)
left (pos a) n requested room = ground arith
left (negsuc a) n requested room = ground arith

check_many-paid :
    (limits : Limits) (overage : Option (Result Overage)) (acquired : Bool) (now : ℕ)
    (key tier : String) (count : ℤ) (db : UsageDb)
    → overage_cost overage ≡ none
    → check_many limits overage acquired now key tier count db
      ≡ check_window limits acquired now key tier count db
unfolding check_many
check_many-paid limits overage acquired now key tier count db paid = ground arith

module _ (limit : ℤ) (seconds requested now : ℕ) (rows : List UsageRecord) where
  -- All units fit next to the rows, and what is left is reported.
  abbrev pub Granted : Result Grant → Type 0
  Granted result =
      (pos (length rows + requested) ≤ℤ limit)
      × (result ≡ ok (true, limit -ℤ pos (length rows + requested), reset_after now seconds))

  -- The units do not fit. The answer has what is left, which is not negative, and the time at which
  -- the oldest row leaves the window.
  abbrev pub Refused : Result Grant → Type 0
  Refused result =
      (¬ (pos (length rows + requested) ≤ℤ limit))
      × (result
          ≡ refuse limit (at_least_zero (limit -ℤ pos (length rows)))
              (reset_of now seconds (oldest rows)))

  -- A decision is a grant exactly when the units fit next to the rows in the window.
  decide_cases :
      1 ≤ requested
      → Granted (decide limit seconds requested now rows)
        ⊎ Refused (decide limit seconds requested now rows)
  unfolding decide
  decide_cases some_units = elim (Bool-cases (leb_ℤ limit (pos (length rows)))) [
    | inl full ↦ inr (ground arith, rw full (rw (spent limit (length rows) full) refl))
    | inr space ↦ elim (Bool-cases (ltb_ℤ (limit -ℤ pos (length rows)) (pos requested))) [
      | inl short ↦ inr (ground arith, rw space (rw short refl))
      | inr room ↦
          inl (ground arith, rw space (rw room (rw (left limit (length rows) requested room) refl)))
    ]
  ]

-- The records of the key that are younger than the window, each looked at by itself.
abbrev pub recent : String → ℕ → ℕ → List UsageRecord → List UsageRecord
recent key now width [] = []
recent key now width (r ∷ rows) =
    let rest = recent key now width rows in
    if r.request.key_id == key && leb (suc now) (r.created_at + width) then r ∷ rest else rest

pub recent-window_rows :
    (key : String) (now seconds : ℕ) (rows : List UsageRecord)
    → keep_if (in_window key now seconds) rows ≡ recent key now (seconds * second) rows
recent-window_rows key now seconds [] = refl
recent-window_rows key now seconds (r ∷ rows) =
    ground (arith, recent-window_rows key now seconds rows)

-- Where the check of the overage asks for no payment: in a tier that is not unlimited, a call that
-- gets the lock grants its units exactly when they fit next to the records of the key that are
-- younger than the window, reports what is left, and else refuses with what is left, which is not
-- negative, and the time at which the oldest of these records leaves the window. Without the lock it
-- refuses with nothing left; in an unlimited tier it grants.
pub check_many_rows :
    (limits : Limits) (overage : Option (Result Overage)) (acquired : Bool) (now : ℕ)
    (key tier : String) (count : ℤ) (db : UsageDb)
    → overage_cost overage ≡ none
    → let limit = (get_limits limits tier).0 in
      let seconds = (get_limits limits tier).1 in
      let rows = recent key now (seconds * second) db.records in
      let result = check_many limits overage acquired now key tier count db in
      ((limit ≡ minus_one) × (result ≡ ok (true, minus_one, pos 0)))
      ⊎ ((limit ≢ minus_one)
          × (((acquired ≡ false) × (result ≡ refuse limit (pos 0) (reset_after now seconds)))
              ⊎ ((acquired ≡ true)
                  × (Granted limit seconds (units count) now rows result
                      ⊎ Refused limit seconds (units count) now rows result))))
unfolding check_window window_rows
check_many_rows limits overage acquired now key tier count db paid =
    let limit = (get_limits limits tier).0 in
    let seconds = (get_limits limits tier).1 in
    let rows = recent key now (seconds * second) db.records in
    let spelled = recent-window_rows key now seconds db.records in
    let decided = decide_cases limit seconds (units count) now rows (omega arith) in
    rw (check_many-paid limits overage acquired now key tier count db paid)
      (elim (Bool-cases (eqb_ℤ limit minus_one)) [
        | inl same ↦ inl ((eqb_ℤ_iff limit minus_one).0 same, rw same refl)
        | inr differ ↦ inr (
          λ e. cc ((eqb_ℤ_iff limit minus_one).1 e),
          elim (Bool-cases acquired) [
            | inl locked ↦ rw differ (rw locked (rw spelled (inr (refl, decided))))
            | inr missed ↦ rw differ (rw missed (inl (refl, refl)))
          ],
        )
      ])

-- Where the driver refuses the text of a date, the limiter with the tracker on the same database never
-- asks for a payment: each call for each tier is decided by its window alone, as without a tracker.
pub check_many_billed-refused :
    (to_date : DateArgument) (e : Exc) (limits : Limits) (acquired : Bool) (now : ℕ)
    (key tier : String) (count : ℤ) (db : UsageDb)
    → Refuses to_date e
    → check_many_billed to_date limits acquired now key tier count db
      ≡ check_many limits none acquired now key tier count db
unfolding check_many_billed check_many overage_cost
check_many_billed-refused to_date e limits acquired now key tier count db refuses =
    elim (check_overage-refused to_date e refuses now key tier db) [
      | inl unpaid ↦ rw unpaid refl
      | inr raised ↦ rw raised refl
    ]
