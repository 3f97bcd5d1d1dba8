-- ===== src/Providers/Custom.antt =====
-- The fixed list of proxies, taken in turn: asb_api/providers/custom.py.
use native.Mathlib.Nat.{zero-mod, mod-add-mod}
use native.Mathlib.Numerals.{add-one}
use asb_cloud_api.Base.{
  ap, ◌∙◌, ◌≡◌, refl, ℕ, zero, suc, ◌+◌, ◌%◌, ◌<◌, String, false, Option, none, some, List, [], ◌∷◌,
  map, arith, ltb, length, get_elem?,
}
use asb_cloud_api.Base.Int.{ℤ, pos}
use asb_cloud_api.Http.{Result, ok, err, pool_exhausted, other_error}
use asb_cloud_api.Providers.{ProxyConfig, Provider}

-- A proxy in the configuration.
pub record ProxyCfg : Type 0 where
  pub host : Option String
  pub port : Option ℤ
  pub username : Option String
  pub password : Option String
  pub protocol : Option String
  pub region : Option String

unfoldable build_proxy : ProxyCfg → ProxyConfig
build_proxy cfg = record {
  host = elim cfg.host [ none ↦ "" | some h ↦ h ];
  port = elim cfg.port [ none ↦ pos 8080 | some n ↦ n ];
  username = cfg.username;
  password = cfg.password;
  protocol = elim cfg.protocol [ none ↦ "http" | some p ↦ p ];
  region = cfg.region;
  sticky = false;
  session_token = none;
}

pub record CustomState : Type 0 where
  pub proxies : List ProxyConfig
  pub index : ℕ

unfoldable pub new_custom : List ProxyCfg → CustomState
unfolding build_proxy
new_custom cfgs = record { proxies = map build_proxy cfgs; index = 0 }

-- The proxy at the index, and the index moved on; an index out of range raises.
unfoldable pub next_proxy : CustomState → Option ProxyConfig → Result ProxyConfig × CustomState
next_proxy s none = (err (other_error "IndexError"), s)
next_proxy s (some proxy) = (ok proxy, record s { index = (s.index + 1) % length s.proxies })

unfoldable pub get_custom : CustomState → Result ProxyConfig × CustomState
get_custom s = elim s.proxies [
  | [] ↦ (err (pool_exhausted "No custom proxies configured"), s)
  | _ ∷ _ ↦ next_proxy s (get_elem? s.proxies s.index)
]

unfoldable pub custom_provider : Provider
custom_provider = record {
  State = CustomState;
  name = "custom";
  get_proxy = λ region s. get_custom s;
  release_proxy = λ proxy s. s;
  health_check = λ s. (ok (ltb 0 (length s.proxies)), s);
}

-- The state after `n` calls.
pub after_gets : ℕ → CustomState → CustomState
after_gets zero s = s
after_gets (suc n) s = (get_custom (after_gets n s)).1

get_elem?-some :
    (xs : List ProxyConfig) (i : ℕ) → i < length xs → (x : ProxyConfig) × (get_elem? xs i ≡ some x)
get_elem?-some [] i h = elim h [ ]
get_elem?-some (x ∷ xs) zero h = (x, refl)
get_elem?-some (x ∷ xs) (suc i) h = get_elem?-some xs i (omega arith)

get_custom_step :
    (ps : List ProxyConfig) (i : ℕ)
    → i < length ps
    → (proxy : ProxyConfig) × (get_elem? ps i ≡ some proxy)
      × (get_custom (record { proxies = ps; index = i })
          ≡ (ok proxy, record { proxies = ps; index = (i + 1) % length ps }))
unfolding get_custom next_proxy
get_custom_step [] i h = elim h [ ]
get_custom_step (p ∷ ps) i h =
    let (proxy, found) = get_elem?-some (p ∷ ps) i h in (proxy, found, rw (found, next_proxy))

after_gets-index :
    (ps : List ProxyConfig) (n : ℕ)
    → 0 < length ps
    → after_gets n (record { proxies = ps; index = 0 })
      ≡ record { proxies = ps; index = n % length ps }
unfolding after_gets
after_gets-index ps zero h = ground (arith, zero-mod (length ps))
after_gets-index ps (suc n) h =
    let (_, _, step) = get_custom_step ps (n % length ps) (grind arith) in
    rw (after_gets, after_gets-index ps n h, step)
      (ap (λ i. record { proxies = ps; index = i })
        (mod-add-mod n (length ps) 1 ∙ ap (λ k. k % length ps) (add-one n)))

-- The proxies are handed out in turn: call number `n`, counted from 0, gives the proxy at `n`
-- modulo their number.
pub get_custom-after_gets :
    (ps : List ProxyConfig) (n : ℕ)
    → 0 < length ps
    → (proxy : ProxyConfig) × (get_elem? ps (n % length ps) ≡ some proxy)
      × ((get_custom (after_gets n (record { proxies = ps; index = 0 }))).0 ≡ ok proxy)
get_custom-after_gets ps n h =
    let (proxy, found, step) = get_custom_step ps (n % length ps) (grind arith) in
    (proxy, found, rw (after_gets-index ps n h, step))
