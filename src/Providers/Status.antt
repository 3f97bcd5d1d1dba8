-- ===== src/Providers/Status.antt =====
-- The health route, asb_api/api/routes/health.py: the state of each breaker and what its provider
-- answers to a check.
use asb_cloud_api.Base.{◌≡◌, refl, ap, map, String, Bool, false, Option, none, some, List, [], ◌∷◌}
use asb_cloud_api.Base.Dict.{Dict}
use asb_cloud_api.Pool.{RegionWorkerPool, Status, get_status}
use asb_cloud_api.Http.{Result, ok, err}
use asb_cloud_api.Providers.Breaker.{Health, up, degraded, down, recovering}

-- `breaker.state.lower()`
unfoldable pub status_name : Health → String
status_name up = "up"
status_name degraded = "degraded"
status_name down = "down"
status_name recovering = "recovering"

-- A breaker's name, its state, and what its `health_check` comes to.
pub record Checked : Type 0 where
  pub name : String
  pub state : Health
  pub check : Result Bool

pub record ProviderStatus : Type 0 where
  pub name : String
  pub status : String
  pub healthy : Bool

-- A check that raises counts as not healthy.
unfoldable pub provider_status : Checked → ProviderStatus
provider_status c = record {
  name = c.name;
  status = status_name c.state;
  healthy = elim c.check [ ok healthy ↦ healthy | err _ ↦ false ];
}

unfoldable pub providers_status : List Checked → List ProviderStatus
providers_status [] = []
providers_status (c ∷ cs) = provider_status c ∷ providers_status cs

pub record ServiceHealth : Type 0 where
  pub status : String
  pub providers : List ProviderStatus
  pub workers : Dict String Status

-- `health`: the service says it is healthy whatever its providers and workers are. Without a pool
-- there are no workers to show.
unfoldable pub health : Option RegionWorkerPool → List Checked → ServiceHealth
health pool breakers = record {
  status = "healthy";
  providers = providers_status breakers;
  workers = elim pool [ none ↦ [] | some p ↦ get_status p ];
}

-- Every breaker is shown once, in order.
health-providers :
    (pool : Option RegionWorkerPool) (breakers : List Checked)
    → map (λ p. p.name) (health pool breakers).providers ≡ map (λ c. c.name) breakers
unfolding health providers_status provider_status
health-providers pool breakers = shown breakers
  where
    shown : (cs : List Checked) → map (λ p. p.name) (providers_status cs) ≡ map (λ c. c.name) cs
    shown [] = refl
    shown (c ∷ cs) = ap (λ rest. c.name ∷ rest) (shown cs)
