-- ===== src/Webhook.antt =====
-- The Stripe webhook: asb_api/api/routes/webhooks.py. `accounts` is the key store, if one is set;
-- `events` are the identifiers that were recorded, in the store's table or in the process.
pub mod Replay
pub mod Licenses
use asb_cloud_api.Base.{
  String, ◌<>◌, Bool, true, false, Option, none, some, List, ◌∷◌, ◌==◌, contains, string_eq,
  if◌then◌else◌,
}
use asb_cloud_api.Http.{Result, ok, raise_http}
use asb_cloud_api.Accounts.{
  Table, upgrade_tier, update_subscription_status, downgrade_to_free, add_license,
}

-- The fields of a completed checkout that are read.
pub record Checkout : Type 0 where
  pub key_id : Option String
  pub tier : Option String
  pub license_type : Option String
  pub subscription : Option String
  pub customer : Option String
  pub customer_email : Option String

-- The types of events that are handled, with the customer and the status that are read.
pub data Kind : Type 0 where
  checkout_completed : Checkout → Kind
  subscription_updated : String → String → Kind
  subscription_deleted payment_failed invoice_paid : String → Kind
  unhandled : Kind

pub record Event : Type 0 where
  pub id : Option String
  pub kind : Kind

-- What `stripe.Webhook.construct_event` comes to.
pub data Constructed : Type 0 where
  bad_signature bad_payload : Constructed
  event : Event → Constructed

pub data Reply : Type 0 where
  received duplicate : Reply

pub record State : Type 0 where
  pub accounts : Option Table
  pub events : List String

-- A text that Python takes for true.
abbrev pub truthy : Option String → Option String
truthy none = none
truthy (some s) = if s == "" then none else some s

-- `a or b`
abbrev or_else : Option String → Option String → Option String
or_else none b = b
or_else (some a) b = some a

-- `_record_event_once`
pub record_event_once : Option String → List String → Bool × List String
record_event_once id events = elim (truthy id) [
  | none ↦ (true, events)
  | some event_id ↦ if contains events event_id then (false, events) else (true, event_id ∷ events)
]

-- `token` is `secrets.token_hex(24)`.
buy_license : String → Checkout → Table → Table
buy_license token c t = elim (truthy c.license_type) [
  | none ↦ t
  | some license_type ↦
      elim (or_else (truthy c.key_id) (or_else (truthy c.customer_email) (truthy c.customer))) [
        | none ↦ t
        | some ident ↦ add_license ident license_type ("sk_license_" <> token) t
      ]
]

complete_checkout : String → Checkout → Table → Table
complete_checkout token c t = elim (truthy c.key_id) [
  | none ↦ buy_license token c t
  | some key_id ↦ elim (truthy c.tier) [
    | none ↦ buy_license token c t
    | some tier ↦ upgrade_tier key_id tier c.subscription c.customer t
  ]
]

unfoldable pub apply_event : String → Kind → Table → Table
unfolding buy_license complete_checkout
apply_event token (checkout_completed c) t = complete_checkout token c t
apply_event token (subscription_updated customer_id status) t =
    update_subscription_status customer_id status t
apply_event token (subscription_deleted customer_id) t = downgrade_to_free customer_id t
apply_event token (payment_failed customer_id) t =
    update_subscription_status customer_id "past_due" t
apply_event token (invoice_paid customer_id) t = update_subscription_status customer_id "active" t
apply_event token unhandled t = t

pub handle_event : String → Event → State → Reply × State
handle_event token e s =
    let (fresh, events) = record_event_once e.id s.events in
    if fresh
    then (
      received,
      record {
        accounts = elim s.accounts [ none ↦ none | some t ↦ some (apply_event token e.kind t) ];
        events = events;
      },
    )
    else (duplicate, record s { events = events })

unfoldable pub stripe_webhook : String → Constructed → String → State → Result Reply × State
stripe_webhook webhook_secret constructed token s =
    if webhook_secret == ""
    then (raise_http 500 "STRIPE_WEBHOOK_SECRET not configured", s)
    else elim constructed [
      | bad_signature ↦ (raise_http 400 "Invalid signature", s)
      | bad_payload ↦ (raise_http 400 "Invalid payload", s)
      | event e ↦ let (reply, s') = handle_event token e s in (ok reply, s')
    ]
