-- ===== src/Billing/Purchases.antt =====
-- A purchase from its checkout to the tier of its key.
use asb_cloud_api.Base.{◌≡◌, refl, ◌≢◌, String, Option, some, [], ◌∷◌, arith, string_eq}
use asb_cloud_api.Base.Dict.{Dict, lookup}
use asb_cloud_api.Http.{ok}
use asb_cloud_api.Accounts.{Account, Table, find_row, get_tier, upgrade_tier}
use asb_cloud_api.Accounts.Tiers.{find_row-upgrade_tier}
use asb_cloud_api.Webhook.{Checkout, checkout_completed, apply_event, truthy}
use asb_cloud_api.Billing.{
  Environment, Stripe, PaidTier, starter, pro, enterprise, tier_name, CheckoutRequest,
  CheckoutResponse, SessionArguments, get_tier_price_id, tier_session, create_checkout,
}

-- The completed checkout that Stripe sends for a session, with its metadata.
abbrev pub completed : SessionArguments → Option String → Option String → Checkout
completed session subscription customer = record {
  key_id = lookup "key_id" session.metadata;
  tier = lookup "tier" session.metadata;
  license_type = lookup "license_type" session.metadata;
  subscription = subscription;
  customer = customer;
  customer_email = some session.customer_email;
}

-- A checkout that was created is for the key that asked for it.
create_checkout-own :
    (env : Environment) (stripe : Stripe) (request : CheckoutRequest) (key_id : String)
    (response : CheckoutResponse)
    → create_checkout env stripe request key_id ≡ ok response
    → request.key_id ≡ key_id
unfolding create_checkout
create_checkout-own env stripe request key_id response created = ground arith

lookup-metadata :
    (key_id tier : String)
    → let metadata : Dict String String = ("key_id", key_id) ∷ ("tier", tier) ∷ [] in
      (lookup "key_id" metadata ≡ some key_id) × (lookup "tier" metadata ≡ some tier)
unfolding string_eq
lookup-metadata key_id tier = (refl, refl)

truthy-tier_name : (tier : PaidTier) → truthy (some (tier_name tier)) ≡ some (tier_name tier)
unfolding string_eq
truthy-tier_name starter = refl
truthy-tier_name pro = refl
truthy-tier_name enterprise = refl

apply_event-tier_session :
    (token price : String) (request : CheckoutRequest) (subscription customer : Option String)
    (t : Table)
    → request.key_id ≢ ""
    → apply_event token
        (checkout_completed (completed (tier_session price request) subscription customer))
        t
      ≡ upgrade_tier request.key_id (tier_name request.tier) subscription customer t
unfolding apply_event
apply_event-tier_session token price request subscription customer t named =
    let (key_id, tier) = lookup-metadata request.key_id (tier_name request.tier) in
    ground (arith, key_id, tier, truthy-tier_name request.tier)

-- When the checkout that a key created is completed, that key has the tier that it asked for, and
-- the row of any other key is as it was.
pub create_checkout-upgrades :
    (env : Environment) (stripe : Stripe) (request : CheckoutRequest) (key_id other : String)
    (response : CheckoutResponse) (token : String) (subscription customer : Option String)
    (row : Account) (t : Table)
    → create_checkout env stripe request key_id ≡ ok response
    → key_id ≢ ""
    → other ≢ key_id
    → find_row key_id t ≡ some row
    → let price = get_tier_price_id env (tier_name request.tier) in
      let t' =
        apply_event token
          (checkout_completed (completed (tier_session price request) subscription customer))
          t in
      (get_tier key_id t' ≡ tier_name request.tier) × (find_row other t' ≡ find_row other t)
create_checkout-upgrades env stripe request key_id other response token subscription customer row t
      created named ne found =
    let price = get_tier_price_id env (tier_name request.tier) in
    let own = create_checkout-own env stripe request key_id response created in
    let (_, tier, others) =
      find_row-upgrade_tier key_id other (tier_name request.tier) subscription customer row t found
        ne in
    rw (apply_event-tier_session token price request subscription customer t (rw own named))
      (rw own (tier, others))
