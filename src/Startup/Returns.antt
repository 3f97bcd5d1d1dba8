-- ===== src/Startup/Returns.antt =====
-- A startup whose parts start comes to its end: `startup` of asb_api/__main__.py raises nothing then.
use asb_cloud_api.Base.{◌≡◌, refl, ℕ, String, Option, none, some}
use asb_cloud_api.Http.{Exc}
use asb_cloud_api.Providers.Registry.Lifecycle.{and_then}
use asb_cloud_api.Startup.Wiring.{
  Parts, StartupConfig, Wired, database_dsn, State, open_database, then_set, open_registry,
  open_checker, open_workers, wire, startup_with, startup,
}

-- No start of a part raises.
pub record Starts {W : Type 0} (parts : Parts W) : Type 0 where
  pub connect : (dsn : String) (m n : ℕ) (s : W) → (parts.connect dsn m n s).0 ≡ none
  pub run_migrations : (s : W) → (parts.run_migrations s).0 ≡ none
  pub start_providers : (s : W) → (parts.start_providers s).0 ≡ none
  pub start_checker : (s : W) → (parts.start_checker s).0 ≡ none
  pub start_workers : (s : W) → (parts.start_workers s).0 ≡ none

and_then_total :
    {S : Type 0} (first : Option Exc × S) (rest : S → Option Exc × S)
    → first.0 ≡ none
    → ((s : S) → (rest s).0 ≡ none)
    → (and_then first rest).0 ≡ none
and_then_total (none, s) rest e rests = rests s
and_then_total (some x, s) rest e rests = e

module _ {W : Type 0} (parts : Parts W) (cfg : StartupConfig) (starts : Starts parts) where
  then_set_total :
      (first : Option Exc × W) (w : Wired) (set : Wired → Wired)
      → first.0 ≡ none
      → (then_set parts cfg first w set).0 ≡ none
  then_set_total (none, s) w set e = refl
  then_set_total (some x, s) w set e = e

  open_database_total :
      (dsn : Option String) (s : State parts cfg) → (open_database parts cfg dsn s).0 ≡ none
  unfolding open_database
  open_database_total none (w, s) = refl
  open_database_total (some dsn) (w, s) =
      and_then_total (parts.connect dsn _ _ s) parts.run_migrations (starts.connect dsn _ _ s)
        starts.run_migrations

  wire_total : (dsn : Option String) (s : State parts cfg) → (wire parts cfg dsn s).0 ≡ none
  unfolding wire
  wire_total none (w, s) = refl
  wire_total (some dsn) (w, s) = refl

  -- A startup whose parts start does not raise, also where the default key cannot be made.
  startup_returns : (s : State parts cfg) → (startup parts cfg s).0 ≡ none
  unfolding startup startup_with open_registry open_checker open_workers
  startup_returns s =
      and_then_total (open_database parts cfg (database_dsn cfg) s) _
        (open_database_total (database_dsn cfg) s)
        λ (w1, s1).
          and_then_total (open_registry parts cfg (w1, s1)) _
            (then_set_total (parts.start_providers s1) w1 _ (starts.start_providers s1))
            λ (w2, s2).
              and_then_total (open_checker parts cfg (w2, s2)) _
                (then_set_total (parts.start_checker s2) w2 _ (starts.start_checker s2))
                λ (w3, s3).
                  and_then_total (open_workers parts cfg (w3, s3)) _
                    (then_set_total (parts.start_workers s3) w3 _ (starts.start_workers s3))
                    (wire_total (database_dsn cfg))
