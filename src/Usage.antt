-- ===== src/Usage.antt =====
-- The usage counter in memory: asb_api/api/usage.py. A day is a number, counted from the epoch,
-- in place of its text.
pub mod Daily
pub mod Route
use asb_cloud_api.Base.{ℕ, ◌+◌, String, none, some, ◌==◌, nat_eq, string_eq, if◌then◌else◌}
use asb_cloud_api.Base.Int.{ℤ, pos}
use asb_cloud_api.Base.Dict.{Dict, lookup, get_or, insert}
use asb_cloud_api.RateLimit.{Limits, no_limits}

-- `_counts` and `_daily`
pub record UsageTracker : Type 0 where
  pub counts : Dict String ℕ
  pub daily : Dict String ℕ

abbrev new_day : ℕ → String → UsageTracker → UsageTracker
new_day today key_id u = record {
  counts = insert key_id 0 u.counts;
  daily = insert key_id today u.daily;
}

pub normalize_day : ℕ → String → UsageTracker → UsageTracker
normalize_day today key_id u = elim (lookup key_id u.daily) [
  | none ↦ new_day today key_id u
  | some day ↦ if day == today then u else new_day today key_id u
]

pub increment : ℕ → String → UsageTracker → UsageTracker
increment today key_id u =
    let u' = normalize_day today key_id u in
    record u' { counts = insert key_id (get_or key_id 0 u'.counts + 1) u'.counts }

pub get : ℕ → String → UsageTracker → ℕ × UsageTracker
get today key_id u = let u' = normalize_day today key_id u in (get_or key_id 0 u'.counts, u')

-- The dict of `get_usage_info`; `reset_at` is the end of the day.
pub record UsageInfo : Type 0 where
  pub tier : String
  pub requests_used : ℕ
  pub requests_limit : ℤ
  pub reset_at : ℕ

unfoldable pub get_usage_info :
    ℕ → String → String → Limits → UsageTracker → UsageInfo × UsageTracker
unfolding get
get_usage_info today key_id tier limits u =
    let (count, u') = get today key_id u in
    let tier_cfg = get_or tier (get_or "free" no_limits limits) limits in
    (
      record {
        tier = tier;
        requests_used = count;
        requests_limit = elim tier_cfg.requests [ none ↦ pos 500 | some n ↦ n ];
        reset_at = today;
      },
      u',
    )
