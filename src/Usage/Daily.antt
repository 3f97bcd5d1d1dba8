-- ===== src/Usage/Daily.antt =====
-- What `get` counts: the increments of the day.
use asb_cloud_api.Base.{
  ◌≡◌, ℕ, suc, ◌+◌, ◌≤◌, String, Bool, none, some, List, [], ◌∷◌, ◌==◌, ◌&&◌, count_if, arith,
  nat_eq, string_eq, if◌then◌else◌, Bool,
}
use asb_cloud_api.Base.Dict.{lookup, get_or, lookup-insert}
use asb_cloud_api.Usage.{UsageTracker, normalize_day, increment, get}

-- What is counted for the key today.
abbrev seen : ℕ → String → UsageTracker → ℕ
seen today key u = elim (lookup key u.daily) [
  | none ↦ 0
  | some day ↦ if day == today then get_or key 0 u.counts else 0
]

lookup-normalize_day :
    (today : ℕ) (key k : String) (u : UsageTracker)
    → (lookup k (normalize_day today key u).daily
        ≡ (if k == key then some today else lookup k u.daily))
      × (get_or k 0 (normalize_day today key u).counts
          ≡ (if k == key then seen today key u else get_or k 0 u.counts))
unfolding normalize_day
lookup-normalize_day today key k u =
    ground (arith, lookup-insert k key today u.daily, lookup-insert k key 0 u.counts)

get-seen : (today : ℕ) (key : String) (u : UsageTracker) → (get today key u).0 ≡ seen today key u
unfolding get
get-seen today key u = ground (arith, lookup-normalize_day today key key u)

lookup-increment :
    (today : ℕ) (key k : String) (u : UsageTracker)
    → (lookup k (increment today key u).daily ≡ (if k == key then some today else lookup k u.daily))
      × (get_or k 0 (increment today key u).counts
          ≡ (if k == key then seen today key u + 1 else get_or k 0 u.counts))
unfolding increment
lookup-increment today key k u = ground (
  arith,
  lookup-normalize_day today key k u,
  lookup-insert k key (get_or key 0 (normalize_day today key u).counts + 1)
      (normalize_day today key u).counts,
)

-- Nothing was counted after the day.
abbrev IsBefore : UsageTracker → ℕ → Type 0
IsBefore u day = (key : String) (d : ℕ) → lookup key u.daily ≡ some d → d ≤ day

-- The increment of a request at its day.
abbrev pub Event : Type 0
Event = ℕ × String

abbrev pub count_events : List Event → UsageTracker → UsageTracker
count_events [] u = u
count_events ((day, key) ∷ events) u = count_events events (increment day key u)

-- The days do not go back, and none is after the last.
abbrev pub IsOrdered : ℕ → List Event → ℕ → Type 0
IsOrdered first [] last = first ≤ last
IsOrdered first ((day, _) ∷ events) last = (first ≤ day) × IsOrdered day events last

increment-IsBefore :
    (day : ℕ) (key : String) (u : UsageTracker)
    → IsBefore u day
    → IsBefore (increment day key u) day
increment-IsBefore day key u before k d h = ground (arith, lookup-increment day key k u, before k d)

-- Is it an increment of the key on the day?
abbrev pub is_at : ℕ → String → Event → Bool
is_at today key (day, k) = day == today && k == key

seen-increment :
    (today day : ℕ) (key k : String) (u : UsageTracker)
    → IsBefore u day
    → day ≤ today
    → seen today key (increment day k u)
      ≡ (if is_at today key (day, k) then suc (seen today key u) else seen today key u)
seen-increment today day key k u before le =
    ground (arith, lookup-increment day k key u, before key today)

ordered_le :
    (first : ℕ) (events : List Event) (last : ℕ) → IsOrdered first events last → first ≤ last
ordered_le first [] last h = h
ordered_le first ((day, _) ∷ events) last h = omega (arith, ordered_le day events last h.1)

seen-count_events :
    (today first : ℕ) (key : String) (events : List Event) (u : UsageTracker)
    → IsBefore u first
    → IsOrdered first events today
    → seen today key (count_events events u) ≡ count_if (is_at today key) events + seen today key u
seen-count_events today first key [] u before ordered = omega arith
seen-count_events today first key ((day, k) ∷ events) u before ordered =
    let le = ordered_le day events today ordered.1 in
    let before_day : IsBefore u day = λ k' d h. omega (arith, before k' d h, ordered.0) in
    ground (
      arith,
      seen-count_events today day key events (increment day k u)
          (increment-IsBefore day k u before_day) ordered.1,
      seen-increment today day key k u before_day le,
    )

abbrev pub empty_tracker : UsageTracker
empty_tracker = record { counts = []; daily = [] }

-- After increments whose days do not go back, `get` answers today's increments of the key, those
-- and no others: other days and other keys count for nothing, and no increment of today is lost.
pub get-count_events :
    (today first : ℕ) (key : String) (events : List Event)
    → IsOrdered first events today
    → (get today key (count_events events empty_tracker)).0 ≡ count_if (is_at today key) events
get-count_events today first key events ordered = ground (
  arith,
  get-seen today key (count_events events empty_tracker),
  seen-count_events today first key events empty_tracker (λ _ _ h. ground arith) ordered,
)
