-- ===== src/Accounts/Tiers.antt =====
-- The tiers that purchases and cancellations leave.
use asb_cloud_api.Base.{
  ◌≡◌, refl, ◌≢◌, inl, inr, Bool, Option-cases, String, Option, none, some, [], ◌∷◌, arith, ◌==◌,
  string_eq, if◌then◌else◌,
}
use asb_cloud_api.Accounts.{
  Account, Table, is_text, update_where, find_row, get_tier, upgrade_tier, downgrade_to_free,
  coalesce,
}

-- An update that keeps the keys acts on the row of each key.
pub find_row-update_where :
    (p : Account → Bool) (f : Account → Account) (key : String) (t : Table)
    → ((a : Account) → (f a).key_id ≡ a.key_id)
    → find_row key (update_where p f t)
      ≡ elim (find_row key t) [ none ↦ none | some a ↦ some (if p a then f a else a) ]
find_row-update_where p f key [] keeps = refl
find_row-update_where p f key (a ∷ t) keeps =
    ground (arith, find_row-update_where p f key t keeps, keeps a)

-- The row that was found has the key.
pub find_row-key_id :
    (key : String) (row : Account) (t : Table) → find_row key t ≡ some row → row.key_id ≡ key
find_row-key_id key row [] found = cc found
find_row-key_id key row (a ∷ t) found = ground (arith, find_row-key_id key row t)

-- After a purchase the key has the tier that was bought and is active, and any other key's row is
-- as it was.
pub find_row-upgrade_tier :
    (key other tier : String) (subscription customer : Option String) (row : Account) (t : Table)
    → find_row key t ≡ some row
    → other ≢ key
    → let t' = upgrade_tier key tier subscription customer t in
      (find_row key t'
        ≡ some (record row {
          tier = tier;
          stripe_subscription_id = subscription;
          stripe_customer_id = coalesce customer row.stripe_customer_id;
          subscription_status = some "active";
        }))
      × (get_tier key t' ≡ tier)
      × (find_row other t' ≡ find_row other t)
unfolding upgrade_tier get_tier
find_row-upgrade_tier key other tier subscription customer row t found ne =
    let is_key : Account → Bool = λ a. a.key_id == key in
    let bought : Account → Account = λ a. record a {
      tier = tier;
      stripe_subscription_id = subscription;
      stripe_customer_id = coalesce customer a.stripe_customer_id;
      subscription_status = some "active";
    } in
    let own = find_row-update_where is_key bought key t (λ _. refl) in
    let others = find_row-update_where is_key bought other t (λ _. refl) in
    let named = find_row-key_id key row t found in
    (
      ground (arith, own, named),
      ground (arith, own, named),
      elim (Option-cases (find_row other t)) [
        | inl absent ↦ ground (arith, others)
        | inr (found', e) ↦ ground (arith, others, find_row-key_id other found' t e)
      ],
    )

-- After a cancellation the keys of the customer are free, and every other key has the tier it had.
pub get_tier-downgrade_to_free :
    (customer key : String) (row : Account) (t : Table)
    → find_row key t ≡ some row
    → get_tier key (downgrade_to_free customer t)
      ≡ (if is_text row.stripe_customer_id customer then "free" else get_tier key t)
unfolding downgrade_to_free get_tier
get_tier-downgrade_to_free customer key row t found = ground (
  arith,
  find_row-update_where (λ a. is_text a.stripe_customer_id customer)
      (λ a. record a {
        tier = "free";
        subscription_status = some "canceled";
        stripe_subscription_id = none;
      })
      key t (λ _. refl),
)
