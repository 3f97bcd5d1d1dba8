-- ===== src/Database/Usage/Dates.antt =====
-- What becomes of usage, of the roll-up and of the overage where the driver does not take the text of a
-- date for a parameter of type DATE. asyncpg documents `datetime.date` for it and raises DataError.
use asb_cloud_api.Base.{
  ◌≡◌, refl, ap, ◌⊎◌, inl, inr, ℕ, String, false, ◌==◌, ◌||◌, some, ◌-◌, Bool-cases, string_eq,
}
use asb_cloud_api.Http.{Exc, Result, ok, err}
use asb_cloud_api.RateLimit.{Limits}
use asb_cloud_api.Usage.Route.{in_postgres, tracker_info, get_usage}
use asb_cloud_api.Database.Usage.{
  DateArgument, UsageDb, day, date_of, get_daily_usage, get, totals_of, count_of, info_of,
  rolled_up, overage_of, get_usage_info, rollup_daily, run_job, check_overage,
}

-- The driver refuses the text of every day.
abbrev pub Refuses : DateArgument → Exc → Type 0
Refuses to_date e = (d : ℕ) → to_date d ≡ err e

module _ (to_date : DateArgument) (e : Exc) (refuses : Refuses to_date e) where
  get-refused : (now : ℕ) (key : String) (db : UsageDb) → get to_date now key db ≡ err e
  unfolding get get_daily_usage
  get-refused now key db =
      ap (λ (r : Result ℕ). count_of (totals_of key db r)) (refuses (date_of now))

  -- Where the driver refuses the text of a date, the usage route over Postgres always raises, and the
  -- daily job raises at every time and rolls nothing up.
  pub get_usage-refused :
      (now : ℕ) (key tier : String) (limits : Limits) (db : UsageDb)
      → ((get_usage to_date now key tier limits (some (in_postgres db))).0 ≡ err e)
        × (run_job to_date now db ≡ (some e, db))
  unfolding get_usage tracker_info get_usage_info run_job rollup_daily
  get_usage-refused now key tier limits db = (
    ap (info_of tier (date_of now) _) (get-refused now key db),
    ap (rolled_up db) (refuses (date_of (now - day))),
  )

  -- Where the driver refuses the text of a date, the overage of a key is no overage or the check
  -- raises.
  pub check_overage-refused :
      (now : ℕ) (key tier : String) (db : UsageDb)
      → (check_overage to_date now key tier db ≡ ok (false, 0, 0))
        ⊎ (check_overage to_date now key tier db ≡ err e)
  unfolding check_overage
  check_overage-refused now key tier db =
      elim (Bool-cases (tier == "free" || tier == "enterprise")) [
        | inl exempt ↦ inl (rw exempt refl)
        | inr paid ↦ inr (rw paid (ap (overage_of _ _) (get-refused now key db)))
      ]
