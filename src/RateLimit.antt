-- ===== src/RateLimit.antt =====
-- The sliding-window limiter in memory, `SlidingWindowLimiter` of asb_api/api/rate_limiter.py.
-- Times are in microseconds, counted from the epoch; windows are configured in seconds.
pub mod Decision
pub mod Sliding
pub mod Recent
use asb_cloud_api.Base.{
  ℕ, ◌+◌, ◌-◌, ◌*◌, ◌/◌, max, String, Bool, true, Option, none, some, List, [], ◌∷◌, ◌++◌, ltb,
  length, replicate, string_eq, if◌then◌else◌,
}
use asb_cloud_api.Base.Int.{ℤ, pos, pos_part, ◌-ℤ◌, ltb_ℤ, eqb_ℤ, minus_one}
use asb_cloud_api.Base.Dict.{Dict, get_or, insert}
use asb_cloud_api.Http.{Result, ok, err, http, rate_limit_exceeded}

-- The limits of a tier in the configuration.
pub record TierLimits : Type 0 where
  pub requests : Option ℤ
  pub window_seconds : Option ℕ

abbrev pub Limits : Type 0
Limits = Dict String TierLimits

-- `self._windows`
abbrev pub Windows : Type 0
Windows = Dict String (List ℕ)

-- (allowed, remaining, reset_at)
abbrev pub Grant : Type 0
Grant = Bool × ℤ × ℤ

abbrev pub second : ℕ
second = 1000000

abbrev pub no_limits : TierLimits
no_limits = record { requests = none; window_seconds = none }

unfoldable pub get_limits : Limits → String → ℤ × ℕ
get_limits limits tier =
    let tier_cfg = get_or tier (get_or "free" no_limits limits) limits in
    (
      elim tier_cfg.requests [ none ↦ pos 500 | some n ↦ n ],
      elim tier_cfg.window_seconds [ none ↦ 3600 | some n ↦ n ],
    )

-- `while window and window[0] < cutoff: window.popleft()`
unfoldable pub prune : ℕ → List ℕ → List ℕ
prune cutoff [] = []
prune cutoff (t ∷ window) =
    let rest = prune cutoff window in if ltb t cutoff then rest else t ∷ window

-- `window[0] if window else now`
abbrev reset_base : ℕ → List ℕ → ℕ
reset_base now [] = now
reset_base now (t ∷ _) = t

-- `max(0, n)`
abbrev pub at_least_zero : ℤ → ℤ
at_least_zero n = pos (pos_part n)

-- What happens to one window under the lock. A cutoff before the epoch is the epoch: no time is
-- before either.
unfoldable pub admit : ℤ → ℕ → ℕ → ℕ → List ℕ → Result Grant × List ℕ
admit max_requests window_seconds count now old =
    let window = prune (now - window_seconds * second) old in
    let remaining_before = max_requests -ℤ pos (length window) in
    if ltb_ℤ remaining_before (pos count)
    then (
      err (
          http (
            rate_limit_exceeded max_requests (at_least_zero remaining_before)
              (pos ((reset_base now window + window_seconds * second) / second)))),
      window,
    )
    else (let after = window ++ replicate count now in
        (
          ok (
            true,
            max_requests -ℤ pos (length after),
            pos ((now + window_seconds * second) / second),
          ),
          after,
        ))

-- `max(1, count)`
abbrev pub units : ℤ → ℕ
units count = max 1 (pos_part count)

unfoldable pub check_many : Limits → ℕ → String → String → ℤ → Windows → Result Grant × Windows
check_many limits now key_id tier count windows =
    let (max_requests, window_seconds) = get_limits limits tier in
    let (result, window) =
      admit max_requests window_seconds (units count) now (get_or key_id [] windows) in
    if eqb_ℤ max_requests minus_one
    then (ok (true, minus_one, pos 0), windows)
    else (result, insert key_id window windows)

unfoldable pub check : Limits → ℕ → String → String → Windows → Result Grant × Windows
check limits now key_id tier = check_many limits now key_id tier (pos 1)
