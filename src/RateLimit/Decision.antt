-- ===== src/RateLimit/Decision.antt =====
-- What one call of the limiter decides, and what it leaves alone.
use asb_cloud_api.Base.{
  ◌≡◌, refl, ◌≢◌, ◌⊎◌, ℕ, ◌+◌, ◌-◌, ◌*◌, ◌<◌, String, true, List, [], ◌∷◌, ◌++◌, arith, All, ltb,
  ◌/◌, length, length-append, length-replicate, replicate, string_eq, Bool-cases, inl, inr,
}
use asb_cloud_api.Base.Int.{ℤ, pos, ◌-ℤ◌, ◌≤ℤ◌, ltb_ℤ, eqb_ℤ, eqb_ℤ_iff, minus_one}
use asb_cloud_api.Base.Dict.{get_or, get_or-insert_self, lookup-insert_ne}
use asb_cloud_api.Http.{Result, ok, err, http, rate_limit_exceeded}
use asb_cloud_api.RateLimit.{
  Limits, Windows, Grant, second, get_limits, prune, admit, units, check_many, at_least_zero,
  reset_base,
}

-- What `prune` takes off is older than the cutoff.
pub prune-append :
    (cutoff : ℕ) (window : List ℕ)
    → (dropped : List ℕ) × (window ≡ dropped ++ prune cutoff window) × All (λ t. t < cutoff) dropped
unfolding prune
prune-append cutoff [] = ([], refl, tt)
prune-append cutoff (t ∷ window) =
    let (dropped, same, old) = prune-append cutoff window in
    elim (Bool-cases (ltb t cutoff)) [
      | inl before ↦ (t ∷ dropped, ground arith, (ground arith, old))
      | inr kept ↦ ([], ground arith, tt)
    ]

module _ (limit : ℤ) (seconds count now : ℕ) (window : List ℕ) where
  -- The call grants all units, records each of them at the current time, and reports what is left.
  abbrev pub Granted : Result Grant × List ℕ → Type 0
  Granted (result, after) =
      (pos (length window + count) ≤ℤ limit)
      × (result
          ≡ ok
              (true, limit -ℤ pos (length window + count), pos ((now + seconds * second) / second)))
      × (after ≡ window ++ replicate count now)

  -- The call is refused with what is left, and records nothing.
  abbrev pub Refused : Result Grant × List ℕ → Type 0
  Refused (result, after) =
      (¬ (pos (length window + count) ≤ℤ limit))
      × (result
          ≡ err (
              http (
                rate_limit_exceeded limit (at_least_zero (limit -ℤ pos (length window)))
                  (pos ((reset_base now window + seconds * second) / second)))))
      × (after ≡ window)

pub admit_cases :
    (limit : ℤ) (seconds count now : ℕ) (old : List ℕ)
    → let window = prune (now - seconds * second) old in
      Granted limit seconds count now window (admit limit seconds count now old)
      ⊎ Refused limit seconds count now window (admit limit seconds count now old)
unfolding admit
admit_cases limit seconds count now old =
    let window = prune (now - seconds * second) old in
    let size : length (window ++ replicate count now) ≡ length window + count =
      omega (arith, length-append window (replicate count now), length-replicate count now) in
    elim (Bool-cases (ltb_ℤ (limit -ℤ pos (length window)) (pos count))) [
      | inl short ↦ inr (ground arith, rw short, rw short)
      | inr room ↦ inl (ground arith, rw room (rw size), rw room)
    ]

-- Unless the tier is unlimited, a call grants its units exactly when they fit next to the entries
-- still in the key's window, and then records them; a refusal records none. In an unlimited tier
-- every call is granted and nothing changes.
pub check_many_cases :
    (limits : Limits) (now : ℕ) (key tier : String) (count : ℤ) (windows : Windows)
    → let limit = (get_limits limits tier).0 in
      let seconds = (get_limits limits tier).1 in
      let window = prune (now - seconds * second) (get_or key [] windows) in
      let (result, windows') = check_many limits now key tier count windows in
      ((limit ≡ minus_one) × (result ≡ ok (true, minus_one, pos 0)) × (windows' ≡ windows))
      ⊎ ((limit ≢ minus_one)
          × (Granted limit seconds (units count) now window (result, get_or key [] windows')
              ⊎ Refused limit seconds (units count) now window (result, get_or key [] windows')))
unfolding check_many
check_many_cases limits now key tier count windows =
    let limit = (get_limits limits tier).0 in
    let seconds = (get_limits limits tier).1 in
    let old = get_or key [] windows in
    let window = (admit limit seconds (units count) now old).1 in
    elim (Bool-cases (eqb_ℤ limit minus_one)) [
      | inl same ↦ inl ((eqb_ℤ_iff limit minus_one).0 same, rw same, rw same)
      | inr differ ↦ inr (
        λ e. cc ((eqb_ℤ_iff limit minus_one).1 e),
        rw differ (
            rw (get_or-insert_self key window [] windows)
              (admit_cases limit seconds (units count) now old)),
      )
    ]

-- A call for one key leaves every other key's window as it was.
pub get_or-check_many :
    (limits : Limits) (now : ℕ) (key tier : String) (count : ℤ) (windows : Windows) (other : String)
    → other ≢ key
    → get_or other [] (check_many limits now key tier count windows).1 ≡ get_or other [] windows
unfolding check_many
get_or-check_many limits now key tier count windows other ne =
    let limit = (get_limits limits tier).0 in
    let seconds = (get_limits limits tier).1 in
    let window = (admit limit seconds (units count) now (get_or key [] windows)).1 in
    ground (arith, lookup-insert_ne other key window windows ne)
