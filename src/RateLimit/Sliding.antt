-- ===== src/RateLimit/Sliding.antt =====
-- The promise of the limiter over a whole run: no interval as long as the window sees more than
-- the limit granted.
use asb_cloud_api.Base.{
  ◌≡◌, refl, ◌≢◌, sym, ◌∙◌, ap, inl, inr, ℕ, zero, suc, ◌+◌, ◌*◌, ◌-◌, ◌≤◌, ◌<◌, String, Bool, ◌&&◌,
  List, [], ◌∷◌, ◌++◌, arith, leb, length, replicate, count_if, All, All-append, Bool-cases, ◌==◌,
  ==_refl, string_eq, if◌then◌else◌,
}
use mathlib.Core.Path.{subst}
use mathlib.Core.List.{append-nil, append_assoc}
use asb_cloud_api.Base.Int.{ℤ, pos}
use asb_cloud_api.Base.Dict.{get_or}
use asb_cloud_api.Http.{Result, ok, err}
use asb_cloud_api.RateLimit.{Limits, Windows, Grant, second, get_limits, prune, units, check_many}
use asb_cloud_api.RateLimit.Decision.{prune-append, check_many_cases, get_or-check_many}

-- One call of `check_many`.
pub record Request : Type 0 where
  pub at : ℕ
  pub key_id : String
  pub tier : String
  pub count : ℤ

-- The times that a call grants to the key.
granted : String → Request → Result Grant → List ℕ
granted key r (ok _) = if r.key_id == key then replicate (units r.count) r.at else []
granted key r (err _) = []

-- The times granted to the key by a run of calls, in order.
pub run : Limits → String → List Request → Windows → List ℕ
run limits key [] windows = []
run limits key (r ∷ rs) windows =
    let (result, windows') = check_many limits r.at r.key_id r.tier r.count windows in
    granted key r result ++ run limits key rs windows'

-- `a <= t <= a + width`
abbrev pub within : ℕ → ℕ → ℕ → Bool
within a width t = leb a t && leb t (a + width)

-- The clock does not run back.
abbrev pub IsOrdered : ℕ → List Request → Type 0
IsOrdered now [] = Unit
IsOrdered now (r ∷ rs) = (now ≤ r.at) × IsOrdered r.at rs

-- The key is used under tiers with one limit.
abbrev pub HasLimit : Limits → String → ℕ → ℕ → List Request → Type 0
HasLimit limits key limit seconds =
    All λ r. r.key_id ≡ key → get_limits limits r.tier ≡ (pos limit, seconds)

count_if-append :
    (p : ℕ → Bool) (xs ys : List ℕ) → count_if p (xs ++ ys) ≡ count_if p xs + count_if p ys
count_if-append p [] ys = omega arith
count_if-append p (x ∷ xs) ys = ground (arith, count_if-append p xs ys)

count_if-le-length : (p : ℕ → Bool) (xs : List ℕ) → count_if p xs ≤ length xs
count_if-le-length p [] = omega arith
count_if-le-length p (x ∷ xs) = ground (arith, count_if-le-length p xs)

count_if-replicate : (p : ℕ → Bool) (n t : ℕ) → count_if p (replicate n t) ≡ (if p t then n else 0)
count_if-replicate p zero t = ground arith
count_if-replicate p (suc n) t = ground (arith, count_if-replicate p n t)

count_if-old :
    (a width now : ℕ) (xs : List ℕ)
    → All (λ t. t + width < now) xs
    → now ≤ a + width
    → count_if (within a width) xs ≡ 0
count_if-old a width now [] h k = refl
count_if-old a width now (x ∷ xs) h k = ground (arith, count_if-old a width now xs h.1 k)

module _ (width limit : ℕ) where
  -- The log is what was dropped, all of it too old to matter, and the window.
  record Tracks (now : ℕ) (log window : List ℕ) : Type 0 where
    dropped : List ℕ
    whole : log ≡ dropped ++ window
    old : All (λ t. t + width < now) dropped

  abbrev Bounded : List ℕ → Type 0
  Bounded log = (a : ℕ) → count_if (within a width) log ≤ limit

  All-later :
      (now now' : ℕ) (xs : List ℕ)
      → now ≤ now'
      → All (λ t. t + width < now) xs
      → All (λ t. t + width < now') xs
  All-later now now' [] le h = tt
  All-later now now' (x ∷ xs) le h = (omega arith, All-later now now' xs le h.1)

  All-before :
      (now : ℕ) (xs : List ℕ) → All (λ t. t < now - width) xs → All (λ t. t + width < now) xs
  All-before now [] h = tt
  All-before now (x ∷ xs) h = (omega arith, All-before now xs h.1)

  prune-Tracks :
      (now now' : ℕ) (log window : List ℕ)
      → now ≤ now'
      → Tracks now log window
      → Tracks now' log (prune (now' - width) window)
  prune-Tracks now now' log window le t =
      let (more, same, before) = prune-append (now' - width) window in
      record {
        dropped = t.dropped ++ more;
        whole = t.whole ∙ (ap (λ w. t.dropped ++ w) same ∙ rw append_assoc);
        old =
            All-append _ t.dropped more (All-later now now' t.dropped le t.old)
              (All-before now' more before);
      }

  grant-Tracks :
      (now n : ℕ) (log window : List ℕ)
      → Tracks now log window
      → Tracks now (log ++ replicate n now) (window ++ replicate n now)
  grant-Tracks now n log window t = record {
    dropped = t.dropped;
    whole = rw t.whole (rw append_assoc);
    old = t.old;
  }

  grant-Bounded :
      (now n : ℕ) (log window : List ℕ)
      → Tracks now log window
      → Bounded log
      → length window + n ≤ limit
      → Bounded (log ++ replicate n now)
  grant-Bounded now n log window t b room a =
      let p = within a width in
      let all = count_if-append p log (replicate n now) in
      let new = count_if-replicate p n now in
      let parts : count_if p log ≡ count_if p t.dropped + count_if p window =
        ap (count_if p) t.whole ∙ count_if-append p t.dropped window in
      let few = count_if-le-length p window in
      elim (Bool-cases (p now)) [
        | inl inside ↦
            let gone = count_if-old a width now t.dropped t.old (ground arith) in
            let units : count_if p (replicate n now) ≡ n = rw inside at new in omega arith
        | inr outside ↦
            let none_new : count_if p (replicate n now) ≡ 0 = rw outside at new in
            omega (arith, b a)
      ]

granted_other :
    (key : String) (r : Request) (result : Result Grant)
    → r.key_id ≢ key
    → granted key r result ≡ []
unfolding granted
granted_other key r (ok _) ne = ground arith
granted_other key r (err _) ne = refl

-- The log of the key and its window, between two calls.
abbrev Follows : ℕ → ℕ → String → ℕ → List ℕ → Windows → Type 0
Follows limit seconds key now log windows =
    Tracks (seconds * second) limit now log (get_or key [] windows)
    × Bounded (seconds * second) limit log

step-Follows_own :
    (limits : Limits) (limit seconds : ℕ) (r : Request) (now : ℕ) (log : List ℕ) (windows : Windows)
    → now ≤ r.at
    → get_limits limits r.tier ≡ (pos limit, seconds)
    → Follows limit seconds r.key_id now log windows
    → let (result, windows') = check_many limits r.at r.key_id r.tier r.count windows in
      Follows limit seconds r.key_id r.at (log ++ granted r.key_id r result) windows'
unfolding granted
step-Follows_own limits limit seconds r now log windows le same (t, b) =
    let width = seconds * second in
    let window = prune (r.at - width) (get_or r.key_id [] windows) in
    let n = units r.count in
    let pruned = prune-Tracks width limit now r.at log (get_or r.key_id [] windows) le t in
    let cases = rw same at (check_many_cases limits r.at r.key_id r.tier r.count windows) in
    elim cases [
      | inl (unlimited, _, _) ↦ absurd (cc unlimited)
      | inr (_, inl (room, result, after)) ↦
          rw (result, after, ==_refl r.key_id)
            (
              grant-Tracks width limit r.at n log window pruned,
              grant-Bounded width limit r.at n log window pruned b (ground arith),
            )
      | inr (_, inr (_, result, after)) ↦ rw (result, after, append-nil) (pruned, b)
    ]

step-Follows_other :
    (limits : Limits) (key : String) (limit seconds : ℕ) (r : Request) (now : ℕ) (log : List ℕ)
    (windows : Windows)
    → now ≤ r.at
    → r.key_id ≢ key
    → Follows limit seconds key now log windows
    → let (result, windows') = check_many limits r.at r.key_id r.tier r.count windows in
      Follows limit seconds key r.at (log ++ granted key r result) windows'
step-Follows_other limits key limit seconds r now log windows le other (t, b) =
    let (result, windows') = check_many limits r.at r.key_id r.tier r.count windows in
    let kept : get_or key [] windows' ≡ get_or key [] windows =
      get_or-check_many limits r.at r.key_id r.tier r.count windows key (λ e. other (sym e)) in
    rw (granted_other key r result other, append-nil, kept)
      (
        record {
          dropped = t.dropped;
          whole = t.whole;
          old = All-later (seconds * second) limit now r.at t.dropped le t.old;
        },
        b,
      )

module _ (limits : Limits) (key : String) (limit seconds : ℕ) where
  run-Follows :
      (rs : List Request) (now : ℕ) (log : List ℕ) (windows : Windows)
      → IsOrdered now rs
      → HasLimit limits key limit seconds rs
      → Follows limit seconds key now log windows
      → Bounded (seconds * second) limit (log ++ run limits key rs windows)
  unfolding run
  run-Follows [] now log windows ordered known (t, b) = rw append-nil b
  run-Follows (r ∷ rs) now log windows (le, ordered) (h, known) f =
      let (result, windows') = check_many limits r.at r.key_id r.tier r.count windows in
      rw (← append_assoc) (
        run-Follows rs r.at (log ++ granted key r result) windows' ordered known
          (elim (string_eq.dec r.key_id key) [
            | yes own ↦
                subst
                  (λ k.
                    Follows limit seconds k now log windows
                    → Follows limit seconds k r.at (log ++ granted k r result) windows')
                  own (step-Follows_own limits limit seconds r now log windows le (h own)) f
            | no other ↦ step-Follows_other limits key limit seconds r now log windows le other f
          ]))

-- Whatever calls are made for whatever keys, the times at which a key was granted units never
-- number more than its limit in an interval as long as its window, if the clock does not run back
-- and all tiers under which the key is used give it that limit and that window.
pub run_bounded :
    (limits : Limits) (key : String) (limit seconds start : ℕ) (rs : List Request)
    → IsOrdered start rs
    → HasLimit limits key limit seconds rs
    → (a : ℕ) → count_if (within a (seconds * second)) (run limits key rs []) ≤ limit
run_bounded limits key limit seconds start rs ordered known =
    run-Follows limits key limit seconds rs start [] [] ordered known
      (record { dropped = []; whole = refl; old = tt }, λ a. omega arith)
