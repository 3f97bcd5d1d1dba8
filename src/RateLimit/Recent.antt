-- ===== src/RateLimit/Recent.antt =====
-- One call of the limiter against the log of a key: the entries younger than the window count, and no
-- others.
use asb_cloud_api.Base.{
  ◌≡◌, refl, ◌≢◌, ◌⊎◌, inl, inr, ℕ, zero, suc, ◌+◌, ◌-◌, ◌*◌, ◌≤◌, String, true, List, [], ◌∷◌,
  ◌++◌, arith, leb, ltb, keep_if, replicate, string_eq, Bool-cases,
}
use asb_cloud_api.Base.Int.{ℤ, pos, minus_one}
use asb_cloud_api.Base.Dict.{get_or}
use asb_cloud_api.Http.{ok}
use asb_cloud_api.RateLimit.{Limits, Windows, second, get_limits, prune, units, check_many}
use asb_cloud_api.RateLimit.Decision.{Granted, Refused, check_many_cases}

-- The times rise from `low` and end by `now`.
abbrev pub IsLog : ℕ → ℕ → List ℕ → Type 0
IsLog low now [] = low ≤ now
IsLog low now (t ∷ ts) = (low ≤ t) × IsLog t now ts

-- The entries that are no older than the window, each looked at by itself.
abbrev pub recent : ℕ → ℕ → List ℕ → List ℕ
recent width now = keep_if λ t. leb now (t + width)

IsLog-low : (low low' now : ℕ) (ts : List ℕ) → low ≤ low' → IsLog low' now ts → IsLog low now ts
IsLog-low low low' now [] le h = omega (arith, h)
IsLog-low low low' now (t ∷ ts) le h = (omega (arith, h.0), h.1)

IsLog-later : (low now now' : ℕ) (ts : List ℕ) → now ≤ now' → IsLog low now ts → IsLog low now' ts
IsLog-later low now now' [] le h = omega (arith, h)
IsLog-later low now now' (t ∷ ts) le h = (h.0, IsLog-later t now now' ts le h.1)

recent_all :
    (width now low last : ℕ) (ts : List ℕ)
    → now ≤ low + width
    → IsLog low last ts
    → recent width now ts ≡ ts
recent_all width now low last [] le h = refl
recent_all width now low last (t ∷ ts) le h =
    ground (arith, h.0, recent_all width now t last ts (omega (arith, h.0)) h.1)

prune-recent :
    (width now low last : ℕ) (ts : List ℕ)
    → IsLog low last ts
    → prune (now - width) ts ≡ recent width now ts
unfolding prune
prune-recent width now low last [] h = refl
prune-recent width now low last (t ∷ ts) h = elim (Bool-cases (ltb t (now - width))) [
  | inl old ↦ ground (arith, prune-recent width now t last ts h.1)
  | inr young ↦ ground (arith, recent_all width now t last ts (ground arith) h.1)
]

recent-IsLog :
    (width now low last : ℕ) (ts : List ℕ)
    → IsLog low last ts
    → IsLog low last (recent width now ts)
recent-IsLog width now low last [] h = h
recent-IsLog width now low last (t ∷ ts) h = elim (Bool-cases (leb now (t + width))) [
  | inl young ↦ rw young (h.0, recent-IsLog width now t last ts h.1)
  | inr old ↦ rw old (recent-IsLog width now low last ts (IsLog-low low t last ts h.0 h.1))
]

replicate-IsLog : (n low now : ℕ) → low ≤ now → IsLog low now (replicate n now)
replicate-IsLog zero low now le = le
replicate-IsLog (suc n) low now le = (le, replicate-IsLog n now now (omega arith))

append-IsLog :
    (n low now : ℕ) (ts : List ℕ) → IsLog low now ts → IsLog low now (ts ++ replicate n now)
append-IsLog n low now [] h = replicate-IsLog n low now h
append-IsLog n low now (t ∷ ts) h = (h.0, append-IsLog n t now ts h.1)

-- A call after the last entry of the key's log, whose times do not fall. Unless the tier is unlimited, it grants its units
-- exactly when they fit next to the entries that are no older than the window, records them and
-- reports what is left; a refusal records none. The log stays in order. In an unlimited tier every
-- call is granted and nothing changes.
pub check_many-recent :
    (limits : Limits) (last now : ℕ) (key tier : String) (count : ℤ) (windows : Windows)
    → last ≤ now
    → IsLog 0 last (get_or key [] windows)
    → let limit = (get_limits limits tier).0 in
      let seconds = (get_limits limits tier).1 in
      let window = recent (seconds * second) now (get_or key [] windows) in
      let (result, windows') = check_many limits now key tier count windows in
      IsLog 0 now (get_or key [] windows')
      × (((limit ≡ minus_one) × (result ≡ ok (true, minus_one, pos 0)) × (windows' ≡ windows))
          ⊎ ((limit ≢ minus_one)
              × (Granted limit seconds (units count) now window (result, get_or key [] windows')
                  ⊎ Refused limit seconds
                      (units count)
                      now
                      window
                      (result, get_or key [] windows'))))
check_many-recent limits last now key tier count windows le log =
    let width = (get_limits limits tier).1 * second in
    let old = get_or key [] windows in
    let later = IsLog-later 0 last now old le log in
    let window = recent-IsLog width now 0 now old later in
    let cases =
      rw (prune-recent width now 0 now old later) at
        (check_many_cases limits now key tier count windows) in
    elim cases [
      | inl (unlimited, result, same) ↦ (rw same later, inl (unlimited, result, same))
      | inr (limited, inl (room, result, after)) ↦ (
        rw after (append-IsLog (units count) 0 now (recent width now old) window),
        inr (limited, inl (room, result, after)),
      )
      | inr (limited, inr (full, result, after)) ↦
          (rw after window, inr (limited, inr (full, result, after)))
    ]
