-- ===== src/Worker/Release.antt =====
-- A scrape gives back what it took, and always answers.
use asb_cloud_api.Base.{
  ◌∙◌, ◌≡◌, refl, inl, inr, ℕ, String, Bool, true, false, Option, none, some, ◌==◌, string_eq,
  Bool-cases, ap,
}
use asb_cloud_api.Http.{
  Exc, Result, ok, err, http, pool_exhausted, provider_error, runtime_error, value_error,
  other_error,
}
use asb_cloud_api.Providers.{ProxyConfig, Provider}
use asb_cloud_api.Models.{ScrapeRequest}
use asb_cloud_api.Worker.{
  Config, Supplies, Lease, Runner, primary, acquire_proxy, after_error, from_fallback,
  release_lease, finish_scrape, scrape, scrape_with,
}

-- What is seen of a provider's leases: a release right after a successful call undoes it, and a
-- call that raises takes nothing.
pub record Leasing (P : Provider) : Type 1 where
  pub Seen : Type 0
  pub seen : P.State → Seen
  pub get-release :
      (region : Option String) (s t : P.State) (proxy : ProxyConfig)
      → P.get_proxy region s ≡ (ok proxy, t)
      → seen (P.release_proxy proxy t) ≡ seen s
  pub get-error :
      (region : Option String) (s t : P.State) (e : Exc)
      → P.get_proxy region s ≡ (err e, t)
      → seen t ≡ seen s

module _ (P Q : Provider) (p : Leasing P) (q : Leasing Q) where
  -- The leases of both providers are the same in both states.
  abbrev pub SameLeases : Supplies P Q → Supplies P Q → Type 0
  SameLeases s t = (p.seen t.first ≡ p.seen s.first) × (q.seen t.second ≡ q.seen s.second)

  -- After the release, if there was a lease.
  abbrev settled : Result (Lease P Q) × Supplies P Q → Supplies P Q
  settled (ok lease, s) = release_lease P Q lease s
  settled (err _, s) = s

  from_fallback-SameLeases :
      (e : Exc) (region : Option String) (s : Supplies P Q)
      → SameLeases s (settled (from_fallback P Q e region s))
  unfolding from_fallback release_lease
  from_fallback-SameLeases e region s = go (Q.get_proxy region s.second).0 refl
    where
      go :
          (r : Result ProxyConfig)
          → (Q.get_proxy region s.second).0 ≡ r
          → SameLeases s (settled (from_fallback P Q e region s))
      go (ok proxy) h = rw h (
        refl,
        q.get-release region s.second (Q.get_proxy region s.second).1 proxy
            (ap (λ r. (r, (Q.get_proxy region s.second).1)) h),
      )
      go (err e') h = rw h (
        refl,
        q.get-error region s.second (Q.get_proxy region s.second).1 e'
            (ap (λ r. (r, (Q.get_proxy region s.second).1)) h),
      )

  after_error-SameLeases :
      (has_fallback : Bool) (e : Exc) (region : Option String) (s : Supplies P Q)
      → SameLeases s (settled (after_error P Q has_fallback e region s))
  unfolding after_error
  after_error-SameLeases true (pool_exhausted m) region s =
      from_fallback-SameLeases (pool_exhausted m) region s
  after_error-SameLeases true (provider_error m) region s =
      from_fallback-SameLeases (provider_error m) region s
  after_error-SameLeases true (http _) region s = (refl, refl)
  after_error-SameLeases true (runtime_error _) region s = (refl, refl)
  after_error-SameLeases true (value_error _) region s = (refl, refl)
  after_error-SameLeases true (other_error _) region s = (refl, refl)
  after_error-SameLeases false e region s = (refl, refl)

  SameLeases-first :
      (s u : Supplies P Q) (first : P.State)
      → p.seen first ≡ p.seen s.first
      → SameLeases (record s { first = first }) u
      → SameLeases s u
  SameLeases-first s u first h (a, b) = (a ∙ h, b)

  acquire_proxy-SameLeases :
      (has_fallback : Bool) (region : Option String) (s : Supplies P Q)
      → SameLeases s (settled (acquire_proxy P Q has_fallback region s))
  unfolding acquire_proxy release_lease
  acquire_proxy-SameLeases has_fallback region s = elim (Bool-cases (P.name == "null")) [
    | inl null ↦ rw null (refl, refl)
    | inr named ↦ rw named (go (P.get_proxy region s.first).0 refl)
  ]
    where
      first : P.State
      first = (P.get_proxy region s.first).1

      go :
          (r : Result ProxyConfig)
          → (P.get_proxy region s.first).0 ≡ r
          → SameLeases s (
              settled (elim r [
                | ok proxy ↦ (
                  ok (record { proxy = some proxy; side = primary; provider_name = P.name }),
                  record s { first = first },
                )
                | err e ↦ after_error P Q has_fallback e region (record s { first = first })
              ]))
      go (ok proxy) h = (p.get-release region s.first first proxy (ap (λ r. (r, first)) h), refl)
      go (err e) h =
          SameLeases-first s
            (settled (after_error P Q has_fallback e region (record s { first = first }))) first
            (p.get-error region s.first first e (ap (λ r. (r, first)) h))
            (after_error-SameLeases has_fallback e region (record s { first = first }))

  finish_scrape-SameLeases :
      (cfg : Config P Q) (runner : Runner) (id : String) (ms : ℕ) (request : ScrapeRequest)
      (s : Supplies P Q) (acquired : Result (Lease P Q) × Supplies P Q)
      → SameLeases s (settled acquired)
      → SameLeases s (finish_scrape P Q cfg runner id ms request acquired).1
  unfolding finish_scrape
  finish_scrape-SameLeases cfg runner id ms request s (ok lease, s') same = same
  finish_scrape-SameLeases cfg runner id ms request s (err e, s') same = same

  scrape_with-SameLeases :
      (runner : Option Runner) (cfg : Config P Q) (id : String) (ms : ℕ) (request : ScrapeRequest)
      (s : Supplies P Q)
      → SameLeases s (scrape_with P Q runner cfg id ms request s).1
  unfolding scrape_with
  scrape_with-SameLeases none cfg id ms request s = (refl, refl)
  scrape_with-SameLeases (some runner) cfg id ms request s =
      finish_scrape-SameLeases cfg runner id ms request s
        (acquire_proxy P Q cfg.has_fallback request.region s)
        (acquire_proxy-SameLeases cfg.has_fallback request.region s)

  -- Whatever happens, the page or any of the errors, a scrape leaves both providers with the
  -- leases they had, where each provider's release undoes its own successful call and a call that
  -- raises takes nothing.
  pub scrape-SameLeases :
      (cfg : Config P Q) (id : String) (ms : ℕ) (request : ScrapeRequest) (s : Supplies P Q)
      → SameLeases s (scrape P Q cfg id ms request s).1
  unfolding scrape
  scrape-SameLeases cfg id ms request s = scrape_with-SameLeases cfg.runner cfg id ms request s
