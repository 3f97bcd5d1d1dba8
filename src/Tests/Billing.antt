-- ===== src/Tests/Billing.antt =====
-- Purchases, cancellations and repeated webhooks at concrete inputs.
use asb_cloud_api.Base.{
  ◌≡◌, refl, ◌≢◌, inl, ap, String, true, false, none, some, [], ◌∷◌, ◌==◌, string_eq,
}
use asb_cloud_api.Accounts.{find_row, Account, Table}
use asb_cloud_api.Admin.{NewKey, async_main, create_key_command}
use asb_cloud_api.Webhook.{Event, checkout_completed, subscription_deleted}
use native.Mathlib.Decide.{ℕ_discrete}
use asb_cloud_api.Base.Text.{codes}
use asb_cloud_api.License.{verify_full}
use asb_cloud_api.Webhook.{apply_event}
use asb_cloud_api.Webhook.Licenses.{license_checkout, issued_malformed}
use asb_cloud_api.Webhook.Replay.{deliver, deliver_repeats}

abbrev alice : Account
alice = record {
  key_id = "key_a";
  key_hash = "hash";
  tier = "free";
  owner_email = none;
  created_at = 0;
  revoked = false;
  stripe_customer_id = some "cus_1";
  stripe_subscription_id = none;
  subscription_status = none;
  license_type = none;
  license_key = none;
}

abbrev table : Table
table = alice ∷ record alice { key_id = "key_b"; stripe_customer_id = none } ∷ []

b-ne-a : ◌≢◌ {A = String} "key_b" "key_a"
unfolding string_eq
b-ne-a e = let same : false ≡ true = ap (λ (s : String). s == "key_a") e in cc same

abbrev deleted : Event
deleted = record { id = some "evt_1"; kind = subscription_deleted "cus_1" }

abbrev bought : Event
bought = record {
  id = some "evt_2";
  kind = checkout_completed (record {
    key_id = some "key_a";
    tier = some "pro";
    license_type = none;
    subscription = none;
    customer = none;
    customer_email = none;
  });
}

-- The cancellation comes again after the purchase, and does not undo it.
deliver_repeats_example :
    deliver ((deleted, "tok_3") ∷ []) (
      deliver
        ((deleted, "tok_1") ∷ (bought, "tok_2") ∷ [])
        (record { accounts = some table; events = [] }))
    ≡ deliver
        ((deleted, "tok_1") ∷ (bought, "tok_2") ∷ [])
        (record { accounts = some table; events = [] })
unfolding string_eq
deliver_repeats_example =
    deliver_repeats ((deleted, "tok_1") ∷ (bought, "tok_2") ∷ []) ((deleted, "tok_3") ∷ [])
      (record { accounts = some table; events = [] }) (("evt_1", refl, inl refl), tt)

abbrev new_key : NewKey
new_key = record { raw = "sk_live_2"; key_id = "key_c"; hash = "hash_2"; now = 7 }

abbrev with_new_key : Table
with_new_key =
    (async_main (λ lines. "[]") new_key (some "postgres://db") none (create_key_command "pro" none)
      table).1

issued_malformed_example :
    (find_row "key_a"
        (apply_event "0a1b" (checkout_completed (license_checkout "key_a" "solo")) table)
      ≡ some (record alice { license_type = some "solo"; license_key = some "sk_license_0a1b" }))
    × (verify_full (λ s. s) 0 (codes "sk_license_0a1b") (codes "solo") (codes "example.com")
        ≡ (false, "Malformed license key"))
unfolding string_eq ℕ_discrete
issued_malformed_example =
    issued_malformed (λ s. s) 0 (codes "example.com") "0a1b" "key_a" "solo" alice table refl refl
      refl refl refl
