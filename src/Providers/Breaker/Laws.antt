-- ===== src/Providers/Breaker/Laws.antt =====
-- The circuit breaker as a state machine: it trips, it refuses, and it recovers.
use asb_cloud_api.Base.{
  ◌≡◌, refl, ◌≢◌, ◌⊎◌, inr, ℕ, ◌+◌, ◌*◌, ◌≤◌, ◌<◌, String, false, Option, some, List, [], ◌∷◌, leb,
  nat_eq, arith, All, length, if◌then◌else◌,
}
use asb_cloud_api.Http.{Result, ok, err, pool_exhausted, provider_error}
use asb_cloud_api.Providers.{ProxyConfig, Provider}
use asb_cloud_api.RateLimit.{second}
use asb_cloud_api.Providers.Breaker.{
  up, down, recovering, Breaker, record_success, record_failure, timed_out, record_outcome,
  call_provider, get_proxy, check_health, marked,
}

module _ (P : Provider) where
  -- One thing that happens to a breaker: a worker asks for a proxy, or the health checker looks.
  pub data Event : Type 0 where
    asks : Option String → ℕ → ℕ → Event
    checks : Event

  pub step : Event → Breaker P → Breaker P
  step (asks region now later) b = (get_proxy P region now later b).1
  step checks b = check_health P b

  pub run : List Event → Breaker P → Breaker P
  run [] b = b
  run (e ∷ es) b = run es (step e b)

  -- A breaker that lets requests through in its normal states has fewer failures than its
  -- threshold.
  abbrev pub IsCoherent : Breaker P → Type 0
  IsCoherent b =
      (2 ≤ b.failure_threshold)
      × ((b.failures < b.failure_threshold) ⊎ ((b.state ≡ down) ⊎ (b.state ≡ recovering)))

  record_outcome-IsCoherent :
      (later : ℕ) (b : Breaker P) (r : Result ProxyConfig)
      → IsCoherent b
      → IsCoherent (record_outcome P later b r).1
  unfolding record_outcome record_success record_failure
  record_outcome-IsCoherent later b (ok proxy) c = ground arith
  record_outcome-IsCoherent later b (err (pool_exhausted m)) c = ground arith
  record_outcome-IsCoherent later b (err (provider_error m)) c = ground arith
  record_outcome-IsCoherent later b (err e) c = c

  call_provider-IsCoherent :
      (region : Option String) (later : ℕ) (b : Breaker P)
      → IsCoherent b
      → IsCoherent (call_provider P region later b).1
  unfolding call_provider
  call_provider-IsCoherent region later b c =
      let (result, provider) = P.get_proxy region b.provider in
      record_outcome-IsCoherent later (record b { provider = provider }) result c

  get_proxy-IsCoherent :
      (region : Option String) (now later : ℕ) (b : Breaker P)
      → IsCoherent b
      → IsCoherent (get_proxy P region now later b).1
  unfolding get_proxy
  get_proxy-IsCoherent region now later b c =
      let probe =
        call_provider-IsCoherent region later (record b { state = recovering })
          (c.0, inr (inr refl)) in
      ground (arith, probe, call_provider-IsCoherent region later b c)

  check_health-IsCoherent : (b : Breaker P) → IsCoherent b → IsCoherent (check_health P b)
  unfolding check_health marked
  check_health-IsCoherent b c = ground arith

  step-IsCoherent : (e : Event) (b : Breaker P) → IsCoherent b → IsCoherent (step e b)
  unfolding step
  step-IsCoherent (asks region now later) b c = get_proxy-IsCoherent region now later b c
  step-IsCoherent checks b c = check_health-IsCoherent b c

  -- Whatever calls and health checks happen, a breaker in state UP or DEGRADED has fewer failures
  -- than its threshold, if the threshold is at least 2.
  pub run-IsCoherent : (es : List Event) (b : Breaker P) → IsCoherent b → IsCoherent (run es b)
  unfolding run
  run-IsCoherent [] b c = c
  run-IsCoherent (e ∷ es) b c = run-IsCoherent es (step e b) (step-IsCoherent e b c)

  -- Calls with no health check between them.
  abbrev pub calls : List (Option String × ℕ × ℕ) → List Event
  calls [] = []
  calls ((region, now, later) ∷ cs) = asks region now later ∷ calls cs

  -- The provider has no proxy, whatever it is asked.
  abbrev pub Fails : Type 0
  Fails =
      (region : Option String) (s : P.State)
      → (m : String) × ((P.get_proxy region s).0 ≡ err (pool_exhausted m))

  -- After a failed call in state UP the breaker has one failure more, and is DOWN at its threshold.
  failed_call :
      Fails
      → (region : Option String) (now later : ℕ) (b : Breaker P) → b.state ≡ up
      → let b' = (get_proxy P region now later b).1 in
        (b'.failures ≡ b.failures + 1)
        × (b'.failure_threshold ≡ b.failure_threshold)
        × (b'.state ≡ (if leb b.failure_threshold (b.failures + 1) then down else up))
  unfolding get_proxy call_provider record_outcome record_failure
  failed_call fails region now later b normal = let (m, e) = fails region b.provider in ground arith

  -- A breaker in state UP whose provider keeps failing is DOWN after exactly as many calls as are
  -- left to its threshold, and UP before.
  pub run_trips :
      Fails
      → (cs : List (Option String × ℕ × ℕ)) (b : Breaker P) → b.state ≡ up
      → b.failures < b.failure_threshold
      → b.failures + length cs ≤ b.failure_threshold
      → (run (calls cs) b).state
        ≡ (if leb b.failure_threshold (b.failures + length cs) then down else up)
  unfolding run step
  run_trips fails [] b normal below left = ground arith
  run_trips fails ((region, now, later) ∷ []) b normal below left =
      ground (arith, failed_call fails region now later b normal)
  run_trips fails ((region, now, later) ∷ c ∷ cs) b normal below left =
      let b' = (get_proxy P region now later b).1 in
      let (more, same, state) = failed_call fails region now later b normal in
      let early : leb b.failure_threshold (b.failures + 1) ≡ false = ground arith in
      let rest =
        run_trips fails (c ∷ cs) b' (rw early at state) (omega (arith, more, same))
          (omega (arith, more, same)) in
      ground (arith, rest, more, same)

  -- While a breaker is DOWN, calls within the timeout after its last failure change nothing: the
  -- provider is not asked.
  pub run-eq_self :
      (cs : List (Option String × ℕ × ℕ)) (b : Breaker P) (t : ℕ)
      → b.state ≡ down
      → b.last_failure ≡ some t
      → All (λ c. c.1 ≤ t + b.recovery_timeout * second) cs
      → run (calls cs) b ≡ b
  unfolding run step get_proxy timed_out
  run-eq_self [] b t closed failed soon = refl
  run-eq_self ((region, now, later) ∷ cs) b t closed failed (soon, rest) =
      let same : (get_proxy P region now later b).1 ≡ b = ground arith in
      rw (same, run) (run-eq_self cs b t closed failed rest)

  -- The first call after the timeout reaches the provider; if that gives a proxy, the caller has it
  -- and the breaker is UP with no failure.
  pub get_proxy_recovers :
      (region : Option String) (now later t : ℕ) (b : Breaker P) (proxy : ProxyConfig)
      → b.state ≡ down
      → b.last_failure ≡ some t
      → t ≢ 0
      → t + b.recovery_timeout * second < now
      → (P.get_proxy region b.provider).0 ≡ ok proxy
      → let (result, b') = get_proxy P region now later b in
        (result ≡ ok proxy)
        × (b'.provider ≡ (P.get_proxy region b.provider).1)
        × (b'.state ≡ up)
        × (b'.failures ≡ 0)
  unfolding get_proxy timed_out call_provider record_outcome record_success
  get_proxy_recovers region now later t b proxy closed failed nonzero late given =
      (ground arith, ground arith, ground arith, ground arith)

  -- If the first call after the timeout fails, the breaker counts the failure at that time, and is
  -- DOWN again if its threshold is reached and RECOVERING otherwise.
  pub get_proxy_fails :
      (region : Option String) (now later t : ℕ) (b : Breaker P) (m : String)
      → b.state ≡ down
      → b.last_failure ≡ some t
      → t ≢ 0
      → t + b.recovery_timeout * second < now
      → (P.get_proxy region b.provider).0 ≡ err (pool_exhausted m)
      → let (result, b') = get_proxy P region now later b in
        (result ≡ err (pool_exhausted m))
        × (b'.last_failure ≡ some later)
        × (b'.failures ≡ b.failures + 1)
        × (b'.state ≡ (if leb b.failure_threshold (b.failures + 1) then down else recovering))
  unfolding get_proxy timed_out call_provider record_outcome record_failure
  get_proxy_fails region now later t b m closed failed nonzero late given =
      (ground arith, ground arith, ground arith, ground arith)
