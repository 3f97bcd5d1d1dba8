-- ===== src/Worker/Decodo.antt =====
-- The leased pool of asb_api/providers/decodo.py keeps the promise that a worker relies on.
use mathlib.Core.Path.{fun_ext}
use asb_cloud_api.Base.{
  ◌≡◌, ap, sym, ◌∙◌, inl, inr, String, Bool, false, Option, [], ◌∷◌, contains, arith, string_eq,
}
use asb_cloud_api.Http.{Exc, Result, ok, err}
use asb_cloud_api.Providers.{ProxyConfig}
use asb_cloud_api.Providers.Decodo.{
  DecodoState, proxy_key, get_decodo, release_decodo, decodo_provider,
}
use asb_cloud_api.Providers.Decodo.Leases.{get_decodo_cases, contains-release_decodo}
use asb_cloud_api.Worker.Release.{Leasing}

-- A proxy that was free, marked and released is as it was.
marked-released :
    (s : DecodoState) (proxy : ProxyConfig) (key : String)
    → contains s.in_use (proxy_key proxy) ≡ false
    → contains (release_decodo proxy (record s { in_use = proxy_key proxy ∷ s.in_use })).in_use key
      ≡ contains s.in_use key
marked-released s proxy key free =
    let s' = record s { in_use = proxy_key proxy ∷ s.in_use } in
    ground (arith, (contains-release_decodo proxy [] 0 s' key).0)

get-release_decodo :
    (region : Option String) (s t : DecodoState) (proxy : ProxyConfig)
    → get_decodo region s ≡ (ok proxy, t)
    → (key : String) → contains (release_decodo proxy t).in_use key ≡ contains s.in_use key
get-release_decodo region s t proxy h key = elim (get_decodo_cases region s) [
  | inl (leased, e, free) ↦
      let both = sym h ∙ e in
      let same : proxy ≡ leased = cc both in
      let after : t ≡ record s { in_use = proxy_key leased ∷ s.in_use } = ap (λ q. q.1) both in
      rw (same, after) (marked-released s leased key free)
  | inr (m, e, _) ↦ absurd (cc (h, e))
]

get-error_decodo :
    (region : Option String) (s t : DecodoState) (e : Exc)
    → get_decodo region s ≡ (err e, t)
    → t ≡ s
get-error_decodo region s t e h = elim (get_decodo_cases region s) [
  | inl (_, e', _) ↦ absurd (cc (h, e'))
  | inr (_, e', _) ↦ ap (λ q. q.1) (sym h ∙ e')
]

-- What is seen is the set of proxies in use.
pub decodo-Leasing : (healthy : DecodoState → Result Bool) → Leasing (decodo_provider healthy)
decodo-Leasing healthy = record {
  Seen = String → Bool;
  seen = λ s key. contains s.in_use key;
  get-release = λ region s t proxy h. fun_ext (get-release_decodo region s t proxy h);
  get-error = λ region s t e h.
      ap {B = String → Bool} (λ (q : DecodoState) key. contains q.in_use key)
        (get-error_decodo region s t e h);
}
