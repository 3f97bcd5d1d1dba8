-- ===== src/Tests/Clients.antt =====
-- The client, the runner, the registry and the purchases at concrete inputs.
use asb_cloud_api.Base.{
  ◌≡◌, refl, ◌≢◌, inr, ap, ℕ, suc, ◌-◌, String, true, false, none, some, [], ◌∷◌, arith, string_eq,
  ◌==◌,
}
use asb_cloud_api.Base.Int.{pos}
use asb_cloud_api.Base.Dict.{Dict}
use asb_cloud_api.Http.{
  Body, api_error, rate_limit_exceeded, overage_limit_exceeded, ok, err, runtime_error,
}
use asb_cloud_api.Models.{ScrapeRequest, stateless}
use asb_cloud_api.Base.{nat_eq, if◌then◌else◌}
use asb_cloud_api.Base.Text.{codes}
use asb_cloud_api.Settings
use asb_cloud_api.Settings.{outside, substitute}
use asb_cloud_api.Pool.{RegionPool}
use asb_cloud_api.Http
use asb_cloud_api.Client.{Node, leaf, text, type_error}
use asb_cloud_api.Client.Errors.{
  raised_for, info_of, class_of, raised_for-limits, raised_for-exception,
}
use asb_cloud_api.Fingerprint.{Fingerprint}
use asb_cloud_api.Runner.{Browser, Job, run}
use asb_cloud_api.Runner.Contexts.{CountsContexts, KeepsOrRefused, run-alive}
use asb_cloud_api.Providers.Registry.{ProviderCfg, registered, choose, initialize_from_config}
use asb_cloud_api.Providers.Registry.Startup.{fallback_entry, chosen, choose-initialize}
use asb_cloud_api.Accounts.{Account, find_row, get_tier}
use asb_cloud_api.Webhook.{checkout_completed, apply_event}
use asb_cloud_api.Billing.{
  Environment, Stripe, CheckoutRequest, CheckoutResponse, pro, tier_name, price_id,
  get_tier_price_id, tier_session, create_checkout,
}
use asb_cloud_api.Billing.Purchases.{completed, create_checkout-upgrades}

abbrev encode : Body → String
encode _ = "{}"

abbrev repr : Dict String Node → String
repr _ = "{}"

abbrev price : ℕ → String
price _ = "0.1"

raised_for-limits_example :
    (raised_for price encode encode repr true (rate_limit_exceeded (pos 1) (pos 0) (pos 30))
      ≡ some (type_error "got multiple values for keyword argument"))
    × (raised_for price encode encode repr true (overage_limit_exceeded 2)
        ≡ some (type_error "got an unexpected keyword argument"))
raised_for-limits_example =
    raised_for-limits price encode encode repr true (pos 1) (pos 0) (pos 30) 2

gone-ne-empty : ◌≢◌ {A = String} "Session gone" ""
gone-ne-empty e = cc e

raised_for-exception_example :
    let raised = λ (c : String). some (
      class_of true 404
        (leaf (text "Session gone"))
        (info_of price encode encode repr true 404 c "Session gone")) in
    (raised_for price encode encode repr true
        (api_error 404 "SESSION_NOT_FOUND" "Session gone" none [])
      ≡ raised "SESSION_NOT_FOUND")
    × ((found : String) × (raised_for price encode encode repr true
            (record { status_code = 404; detail = Http.text "Session gone"; headers = none })
          ≡ raised found))
raised_for-exception_example =
    raised_for-exception price encode encode repr true 404 "SESSION_NOT_FOUND" "Session gone" none
      (inr (omega arith)) gone-ne-empty (λ e. omega (arith, e)) (λ e. omega (arith, e))

abbrev scrape_request : ScrapeRequest
scrape_request = record {
  url = "https://example.org";
  method = "GET";
  headers = [];
  body = none;
  proxy_provider = some "";
  region = some "us";
  fingerprint = none;
  timeout = 30;
  screenshot = false;
  session_id = none;
  session_type = stateless;
}

-- A browser that counts its contexts and refuses every page.
abbrev refusing : Browser ℕ Unit Unit Unit
refusing = record {
  new_context = λ _ b. (ok tt, suc b);
  new_page = λ _ b. (err (runtime_error "no page"), b);
  fetch = λ _ _ _ _ _ b. (ok tt, b);
  text = λ _ b. (ok "", b);
  set_content = λ _ _ _ b. (ok tt, b);
  goto = λ _ _ _ b. (ok none, b);
  content = λ _ b. (ok "", b);
  cookies = λ _ b. (ok [], b);
  screenshot = λ _ _ b. (ok tt, b);
  close = λ _ b. (ok tt, b - 1);
  headers = λ _. [];
}

refusing-CountsContexts : CountsContexts refusing (λ b. b)
refusing-CountsContexts = record {
  new_context-ok = λ o b b' c e. cc e;
  new_context-err = λ o b b' x e. cc e;
  close-alive = λ c b n one. omega (arith, one);
  new_page-alive = λ c b. refl;
  fetch-alive = λ c url headers body timeout b. refl;
  text-alive = λ r b. refl;
  set_content-alive = λ p html timeout b. refl;
  goto-alive = λ p url timeout b. refl;
  content-alive = λ p b. refl;
  cookies-alive = λ c b. refl;
  screenshot-alive = λ p path b. refl;
}

abbrev fingerprint : Fingerprint
fingerprint = record {
  user_agent = [];
  viewport = (pos 1920, pos 1080);
  webgl_vendor = "";
  canvas = "noise";
  accept_language = none;
  platform = none;
}

abbrev page_job : Job
page_job = record {
  url = "https://example.org";
  method = "GET";
  headers = [];
  payload = none;
  proxy = none;
  fingerprint = fingerprint;
  timeout = 30;
  screenshot = false;
  screenshot_dir = none;
}

run-alive_example :
    KeepsOrRefused refusing (λ b. b) 4 (run refusing (λ s. s) (λ s. s) true "shot" page_job 4)
run-alive_example =
    run-alive refusing (λ b. b) (λ s. s) (λ s. s) true "shot" page_job 4 refusing-CountsContexts

abbrev enabled : ProviderCfg
enabled = record {
  enabled = some true;
  proxies = none;
  api_key = none;
  pool_size = none;
  regions = none;
  default_region = none;
  zones = none;
}

abbrev config : Dict String ProviderCfg
config = ("null", enabled) ∷ ("decodo", enabled) ∷ []

choose-initialize_example :
    choose (initialize_from_config config []) "brightdata" "decodo"
    ≡ chosen none (fallback_entry config "brightdata" "decodo") (registered "null" enabled)
unfolding string_eq
choose-initialize_example = choose-initialize config "brightdata" "decodo" (refl, (refl, tt))

abbrev alice : Account
alice = record {
  key_id = "key_a";
  key_hash = "hash";
  tier = "free";
  owner_email = none;
  created_at = 0;
  revoked = false;
  stripe_customer_id = none;
  stripe_subscription_id = none;
  subscription_status = none;
  license_type = none;
  license_key = none;
}

abbrev environment : Environment
environment _ = some "price_1"

abbrev response : CheckoutResponse
response = record { checkout_url = "https://stripe"; session_id = "cs_1" }

abbrev stripe : Stripe
stripe _ = ok response

abbrev checkout : CheckoutRequest
checkout = record { tier = pro; key_id = "key_a"; email = "a@example.org" }

a-ne-empty : ◌≢◌ {A = String} "key_a" ""
a-ne-empty e = cc e

b-ne-a : ◌≢◌ {A = String} "key_b" "key_a"
unfolding string_eq
b-ne-a e = let same : false ≡ true = ap (λ (s : String). s == "key_a") e in cc same

create_checkout-upgrades_example :
    let t' =
      apply_event "tok"
        (checkout_completed (
          completed
            (tier_session (get_tier_price_id environment (tier_name pro)) checkout)
            (some "sub_1")
            (some "cus_1")))
        (alice ∷ []) in
    (get_tier "key_a" t' ≡ "pro") × (find_row "key_b" t' ≡ find_row "key_b" (alice ∷ []))
unfolding string_eq create_checkout get_tier_price_id price_id
create_checkout-upgrades_example =
    create_checkout-upgrades environment stripe checkout "key_a" "key_b" response "tok"
      (some "sub_1") (some "cus_1") alice (alice ∷ []) refl a-ne-empty b-ne-a refl

-- Variables with an H in front are set, and nothing else.
abbrev variables : Settings.Environment
variables [] = none
variables (c ∷ _) = if c == b'H' then some (codes "/root") else none

-- Two workers, the first of them busy.
abbrev two_workers : RegionPool
two_workers = record {
  value = 1;
  bound = 2;
  workers =
      record { busy = true; lease_region = none }
      ∷ record { busy = false; lease_region = none }
      ∷ [];
}

abbrev all_busy : RegionPool
all_busy = record {
  value = 0;
  bound = 2;
  workers =
      record { busy = true; lease_region = none }
      ∷ record { busy = true; lease_region = none }
      ∷ [];
}
