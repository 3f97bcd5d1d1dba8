-- ===== src/Providers/Decodo/Leases.antt =====
-- A proxy in use is not handed out again.
use asb_cloud_api.Base.{
  ◌<>◌, ◌≡◌, refl, ap, inl, inr, ◌⊎◌, String, Bool, true, false, not, ◌&&◌, Option, none, some,
  List, [], ◌∷◌, ◌==◌, contains, arith, All, keep_if, string_eq, Option-cases, if◌then◌else◌, ℕ,
}
use asb_cloud_api.Http.{Result, ok, err, pool_exhausted}
use asb_cloud_api.Providers.{ProxyConfig}
use asb_cloud_api.Providers.Decodo.{
  DecodoState, Pools, proxy_key, pool_keys, candidates, first_free, wanted_region, lease_from,
  get_decodo, release_decodo, replace_pool,
}

contains-keep_if :
    (p : String → Bool) (xs : List String) (k : String)
    → contains (keep_if p xs) k ≡ (p k && contains xs k)
contains-keep_if p [] k = ground arith
contains-keep_if p (x ∷ xs) k = ground (arith, contains-keep_if p xs k)

-- Every candidate is in use.
abbrev pub AllInUse : List String → List ProxyConfig → Type 0
AllInUse in_use = All λ proxy. contains in_use (proxy_key proxy) ≡ true

first_free-none :
    (in_use : List String) (ps : List ProxyConfig)
    → first_free in_use ps ≡ none
    → AllInUse in_use ps
unfolding first_free
first_free-none in_use [] h = tt
first_free-none in_use (p ∷ ps) h = ground (arith, first_free-none in_use ps)

first_free-some :
    (in_use : List String) (ps : List ProxyConfig) (proxy : ProxyConfig)
    → first_free in_use ps ≡ some proxy
    → contains in_use (proxy_key proxy) ≡ false
unfolding first_free
first_free-some in_use [] proxy h = cc
first_free-some in_use (p ∷ ps) proxy h = ground (arith, first_free-some in_use ps proxy)

lease_from_cases :
    (region : String) (ps : List ProxyConfig) (s : DecodoState)
    → ((proxy : ProxyConfig) × (lease_from region ps s
          ≡ (ok proxy, record s { in_use = proxy_key proxy ∷ s.in_use }))
        × (contains s.in_use (proxy_key proxy) ≡ false))
      ⊎ ((m : String) × (lease_from region ps s ≡ (err (pool_exhausted m), s))
          × AllInUse s.in_use ps)
unfolding lease_from
lease_from_cases region [] s = inr (_, refl, tt)
lease_from_cases region (p ∷ ps) s = elim (Option-cases (first_free s.in_use (p ∷ ps))) [
  | inl taken ↦ inr (
    "All Decodo proxies in use for region=" <> region,
    rw (taken, lease_from),
    first_free-none s.in_use (p ∷ ps) taken,
  )
  | inr (proxy, free) ↦
      inl (proxy, rw (free, lease_from), first_free-some s.in_use (p ∷ ps) proxy free)
]

-- A call either leases a proxy that was free, and marks that one alone, or it raises and changes
-- nothing, with every candidate of the region in use.
pub get_decodo_cases :
    (region : Option String) (s : DecodoState)
    → ((proxy : ProxyConfig) × (get_decodo region s
          ≡ (ok proxy, record s { in_use = proxy_key proxy ∷ s.in_use }))
        × (contains s.in_use (proxy_key proxy) ≡ false))
      ⊎ ((m : String) × (get_decodo region s ≡ (err (pool_exhausted m), s))
          × AllInUse s.in_use (candidates (wanted_region region s) s.proxies))
unfolding get_decodo
get_decodo_cases region s =
    lease_from_cases (wanted_region region s) (candidates (wanted_region region s) s.proxies) s

-- A release frees exactly the proxy's key; a refresh keeps the marks of the keys that are still in
-- the pool, and no others.
pub contains-release_decodo :
    (proxy : ProxyConfig) (pools : Pools) (now : ℕ) (s : DecodoState) (key : String)
    → (contains (release_decodo proxy s).in_use key
        ≡ (if key == proxy_key proxy then false else contains s.in_use key))
      × (contains (replace_pool pools now s).in_use key
          ≡ (contains (pool_keys pools) key && contains s.in_use key))
unfolding release_decodo replace_pool
contains-release_decodo proxy pools now s key = (
  ground (arith, contains-keep_if (λ k. not (k == proxy_key proxy)) s.in_use key),
  contains-keep_if (contains (pool_keys pools)) s.in_use key,
)

-- The keys that a row of calls hands out.
pub add_key : Result ProxyConfig → List String → List String
add_key (ok proxy) keys = proxy_key proxy ∷ keys
add_key (err _) keys = keys

pub lease_keys : List (Option String) → DecodoState → List String
unfolding add_key
lease_keys [] s = []
lease_keys (region ∷ regions) s =
    let (result, s') = get_decodo region s in add_key result (lease_keys regions s')

lease_keys-cons :
    (region : Option String) (regions : List (Option String)) (s : DecodoState)
    (result : Result ProxyConfig) (s' : DecodoState)
    → get_decodo region s ≡ (result, s')
    → lease_keys (region ∷ regions) s ≡ add_key result (lease_keys regions s')
unfolding lease_keys
lease_keys-cons region regions s result s' e =
    ap (λ (q : Result ProxyConfig × DecodoState). add_key q.0 (lease_keys regions q.1)) e

abbrev pub AllDistinct : List String → Type 0
AllDistinct [] = Unit
AllDistinct (k ∷ ks) = (contains ks k ≡ false) × AllDistinct ks

abbrev Unused : List String → List String → Type 0
Unused in_use = All λ k. contains in_use k ≡ false

Unused-cons :
    (key : String) (in_use ks : List String)
    → Unused (key ∷ in_use) ks
    → Unused in_use ks × (contains ks key ≡ false)
Unused-cons key in_use [] h = (tt, refl)
Unused-cons key in_use (k ∷ ks) h = ground (arith, Unused-cons key in_use ks h.1)

-- Calls with no release in between hand out proxies with distinct keys, none of which was in use.
pub lease_keys_distinct :
    (regions : List (Option String)) (s : DecodoState)
    → AllDistinct (lease_keys regions s)
      × All (λ k. contains s.in_use k ≡ false) (lease_keys regions s)
unfolding lease_keys
lease_keys_distinct [] s = (tt, tt)
lease_keys_distinct (region ∷ regions) s = elim (get_decodo_cases region s) [
  | inl (proxy, leased, free) ↦
      let s' = record s { in_use = proxy_key proxy ∷ s.in_use } in
      let (distinct, unused) = lease_keys_distinct regions s' in
      let (older, fresh) = Unused-cons (proxy_key proxy) s.in_use (lease_keys regions s') unused in
      rw (lease_keys-cons region regions s (ok proxy) s' leased) ((fresh, distinct), (free, older))
  | inr (m, refused, _) ↦
      rw (lease_keys-cons region regions s (err (pool_exhausted m)) s refused)
        (lease_keys_distinct regions s)
]
