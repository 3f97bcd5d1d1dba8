-- ===== src/Billing.antt =====
-- Billing: the prices of asb_api/billing/__init__.py and the routes of
-- asb_api/api/routes/checkout.py and billing.py. The calls of Stripe and the environment are
-- parameters.
pub mod Purchases
use asb_cloud_api.Base.{
  ℕ, String, ◌<>◌, ◌==◌, Option, none, some, List, [], ◌∷◌, string_eq, if◌then◌else◌,
}
use asb_cloud_api.Base.Int.{ℤ}
use asb_cloud_api.Base.Dict.{Dict, lookup}
use asb_cloud_api.Http.{Result, ok, err, raise_http, message_of, other_error}
use asb_cloud_api.Accounts.{Account, Table, find_row}

-- `TIER_PRICE_ENV`
abbrev pub tier_price_env : Dict String String
tier_price_env =
    ("starter", "STRIPE_PRICE_STARTER")
    ∷ ("pro", "STRIPE_PRICE_PRO")
    ∷ ("enterprise", "STRIPE_PRICE_ENTERPRISE")
    ∷ []

-- `LICENSE_PRICE_ENV`
abbrev pub license_price_env : Dict String String
license_price_env =
    ("solo", "STRIPE_LICENSE_SOLO")
    ∷ ("team", "STRIPE_LICENSE_TEAM")
    ∷ ("enterprise", "STRIPE_LICENSE_ENTERPRISE")
    ∷ []

-- `os.environ`
abbrev pub Environment : Type 0
Environment = String → Option String

-- `EnvPriceMap(env_by_key).get(key, "")`
unfoldable pub price_id : Environment → Dict String String → String → String
price_id env env_by_key key = elim (lookup key env_by_key) [
  | none ↦ ""
  | some env_key ↦ elim (env env_key) [ none ↦ "" | some price ↦ price ]
]

unfoldable pub get_tier_price_id : Environment → String → String
get_tier_price_id env = price_id env tier_price_env

unfoldable pub get_license_price_id : Environment → String → String
get_license_price_id env = price_id env license_price_env

-- The maps that the legacy names of prices look in.
pub data PriceMap : Type 0 where
  tier_prices license_prices : PriceMap

abbrev legacy_prices : Dict String (PriceMap × String)
legacy_prices =
    ("FREE_PRICE_ID", (tier_prices, "starter"))
    ∷ ("PRO_PRICE_ID", (tier_prices, "pro"))
    ∷ ("ENTERPRISE_PRICE_ID", (tier_prices, "enterprise"))
    ∷ ("SOLO_LICENSE_PRICE_ID", (license_prices, "solo"))
    ∷ ("TEAM_LICENSE_PRICE_ID", (license_prices, "team"))
    ∷ ("ENTERPRISE_LICENSE_PRICE_ID", (license_prices, "enterprise"))
    ∷ []

-- `__getattr__` of the module.
unfoldable pub getattr : Environment → String → Result String
getattr env name = elim (lookup name legacy_prices) [
  | none ↦ err (other_error name)
  | some (tier_prices, key) ↦ ok (get_tier_price_id env key)
  | some (license_prices, key) ↦ ok (get_license_price_id env key)
]

-- `Literal["starter", "pro", "enterprise"]`
pub data PaidTier : Type 0 where
  starter pro enterprise : PaidTier

abbrev pub tier_name : PaidTier → String
tier_name starter = "starter"
tier_name pro = "pro"
tier_name enterprise = "enterprise"

-- `Literal["solo", "team", "enterprise"]`
pub data LicenseType : Type 0 where
  solo team site : LicenseType

abbrev pub license_name : LicenseType → String
license_name solo = "solo"
license_name team = "team"
license_name site = "enterprise"

pub record CheckoutRequest : Type 0 where
  pub tier : PaidTier
  pub key_id : String
  pub email : String

pub record LicenseCheckoutRequest : Type 0 where
  pub license_type : LicenseType
  pub email : String

-- The arguments of `checkout.Session.create` that depend on the request.
pub record SessionArguments : Type 0 where
  pub price : String
  pub mode : String
  pub customer_email : String
  pub metadata : Dict String String

pub record CheckoutResponse : Type 0 where
  pub checkout_url : String
  pub session_id : String

-- `except Exception as e: raise HTTPException(500, f"Stripe error: {e}")`
abbrev pub or_stripe_error {ℓ} : {A : Type ℓ} → Result A → Result A
or_stripe_error (ok a) = ok a
or_stripe_error (err e) = raise_http 500 ("Stripe error: " <> message_of e)

abbrev pub tier_session : String → CheckoutRequest → SessionArguments
tier_session price request = record {
  price = price;
  mode = "subscription";
  customer_email = request.email;
  metadata = ("key_id", request.key_id) ∷ ("tier", tier_name request.tier) ∷ [];
}

abbrev pub license_session : String → LicenseCheckoutRequest → SessionArguments
license_session price request = record {
  price = price;
  mode = "payment";
  customer_email = request.email;
  metadata = ("license_type", license_name request.license_type) ∷ [];
}

-- `checkout.Session.create`: the URL and the id of the session, or an exception.
abbrev pub Stripe : Type 0
Stripe = SessionArguments → Result CheckoutResponse

unfoldable pub create_checkout :
    Environment → Stripe → CheckoutRequest → String → Result CheckoutResponse
create_checkout env stripe request authenticated_key_id =
    let price = get_tier_price_id env (tier_name request.tier) in
    if request.key_id == authenticated_key_id
    then (if price == ""
        then raise_http 400 "Invalid tier"
        else or_stripe_error (stripe (tier_session price request)))
    else raise_http 403 "Cannot create checkout for another API key"

unfoldable pub create_license_checkout :
    Environment → Stripe → LicenseCheckoutRequest → Result CheckoutResponse
create_license_checkout env stripe request =
    let price = get_license_price_id env (license_name request.license_type) in
    if price == ""
    then raise_http 400 "Invalid license type"
    else or_stripe_error (stripe (license_session price request))

-- `_stripe_customer_id` of the record of a key.
abbrev pub stripe_customer_id : Option Account → Option String
stripe_customer_id none = none
stripe_customer_id (some account) = account.stripe_customer_id

-- What a billing route does for a customer; `call` is its call of Stripe.
unfoldable pub for_customer {ℓ} : {A : Type ℓ} → Option String → (String → Result A) → Result A
for_customer none call = raise_http 400 "No Stripe customer found"
for_customer (some customer_id) call =
    if customer_id == ""
    then raise_http 400 "No Stripe customer found"
    else or_stripe_error (call customer_id)

-- `customer_portal`: the URL of the portal.
unfoldable pub customer_portal : (String → Result String) → String → Table → Result String
customer_portal create key_id t = for_customer (stripe_customer_id (find_row key_id t)) create

pub record Invoice : Type 0 where
  pub id : String
  pub amount_paid : ℤ
  pub currency : String
  pub status : Option String
  pub created : ℕ
  pub invoice_pdf : Option String

-- `list_invoices`; Stripe gives at most ten.
unfoldable pub list_invoices :
    (String → Result (List Invoice)) → String → Table → Result (List Invoice)
list_invoices list key_id t = for_customer (stripe_customer_id (find_row key_id t)) list
