-- ===== src/Providers/Breaker.antt =====
-- The circuit breaker and the health checker's round: asb_api/providers/health.py. The clock is in
-- microseconds, the timeout in seconds.
pub mod Laws
use asb_cloud_api.Base.{
  ℕ, ◌+◌, ◌-◌, ◌*◌, String, ◌<>◌, Bool, true, false, not, ◌&&◌, Option, none, some, ◌==◌, ltb, leb,
  nat_eq, if◌then◌else◌,
}
use asb_cloud_api.Http.{Result, ok, err, Exc, pool_exhausted, provider_error}
use asb_cloud_api.Providers.{ProxyConfig, Provider}
use asb_cloud_api.RateLimit.{second}

-- `self.state`
pub data Health : Type 0 where
  up degraded down recovering : Health

module _ (P : Provider) where
  -- `class CircuitBreaker`, with the state of its provider.
  pub record Breaker : Type 0 where
    pub failure_threshold : ℕ
    pub recovery_timeout : ℕ
    pub failures : ℕ
    pub last_failure : Option ℕ
    pub state : Health
    pub provider : P.State

  unfoldable pub new_breaker : ℕ → ℕ → P.State → Breaker
  new_breaker failure_threshold recovery_timeout provider = record {
    failure_threshold = failure_threshold;
    recovery_timeout = recovery_timeout;
    failures = 0;
    last_failure = none;
    state = up;
    provider = provider;
  }

  abbrev recovered : Health → Health
  recovered recovering = up
  recovered h = h

  unfoldable pub record_success : Breaker → Breaker
  record_success b = record b { failures = 0; state = recovered b.state }

  unfoldable pub record_failure : ℕ → Breaker → Breaker
  record_failure now b =
      let failures = b.failures + 1 in
      record b {
        failures = failures;
        last_failure = some now;
        state = if leb b.failure_threshold failures then down else b.state;
      }

  -- `self.last_failure and (now - self.last_failure) > self.recovery_timeout`
  unfoldable pub timed_out : ℕ → Breaker → Bool
  timed_out now b = elim b.last_failure [
    | none ↦ false
    | some t ↦ not (t == 0) && ltb (b.recovery_timeout * second) (now - t)
  ]

  -- After the call of the provider: its success or its failure is recorded; another exception
  -- passes through.
  unfoldable pub record_outcome : ℕ → Breaker → Result ProxyConfig → Result ProxyConfig × Breaker
  record_outcome later b (ok proxy) = (ok proxy, record_success b)
  record_outcome later b (err (pool_exhausted m)) = (err (pool_exhausted m), record_failure later b)
  record_outcome later b (err (provider_error m)) = (err (provider_error m), record_failure later b)
  record_outcome later b (err e) = (err e, b)

  unfoldable pub call_provider : Option String → ℕ → Breaker → Result ProxyConfig × Breaker
  call_provider region later b =
      let (result, provider) = P.get_proxy region b.provider in
      record_outcome later (record b { provider = provider }) result

  abbrev pub refusal : Exc
  refusal = pool_exhausted ("Provider " <> (P.name <> " is DOWN, try fallback"))

  -- `now` is the clock at the test, `later` the clock if a failure is recorded.
  unfoldable pub get_proxy : Option String → ℕ → ℕ → Breaker → Result ProxyConfig × Breaker
  get_proxy region now later b = elim b.state [
    | down ↦
        if timed_out now b
        then call_provider region later (record b { state = recovering })
        else (err refusal, b)
    | _ ↦ call_provider region later b
  ]

  unfoldable pub release_proxy : ProxyConfig → Breaker → Breaker
  release_proxy proxy b = record b { provider = P.release_proxy proxy b.provider }

  marked : Result Bool → Breaker → Breaker
  marked (ok true) b = elim b.state [
    | down ↦ record b { state = recovering }
    | degraded ↦ record b { state = recovering }
    | _ ↦ b
  ]
  marked (ok false) b = elim b.state [ up ↦ record b { state = degraded; failures = 1 } | _ ↦ b ]
  marked (err _) b = record b { state = down }

  -- One turn of `ProviderHealthChecker._check_loop` for this breaker.
  pub check_health : Breaker → Breaker
  check_health b =
      let (result, provider) = P.health_check b.provider in
      marked result (record b { provider = provider })
