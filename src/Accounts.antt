-- ===== src/Accounts.antt =====
-- The key store in Postgres: asb_api/db/auth_store.py. The table `api_keys` is the list of its rows;
-- one statement is one step.
pub mod Tiers
pub mod Listing
use asb_cloud_api.Base.{
  ℕ, String, Bool, true, false, not, ◌&&◌, ◌||◌, Option, none, some, List, [], ◌∷◌, ◌++◌, any_of,
  ◌==◌, map, ltb, nat_eq, string_eq, if◌then◌else◌,
}
use asb_cloud_api.Base.Text.{codes, is_prefix_of}
use asb_cloud_api.Http.{Result, ok, err, other_error}

-- A row of `api_keys`.
pub record Account : Type 0 where
  pub key_id : String
  pub key_hash : String
  pub tier : String
  pub owner_email : Option String
  pub created_at : ℕ
  pub revoked : Bool
  pub stripe_customer_id : Option String
  pub stripe_subscription_id : Option String
  pub subscription_status : Option String
  pub license_type : Option String
  pub license_key : Option String

abbrev pub Table : Type 0
Table = List Account

-- `column = $1`, which no NULL satisfies.
abbrev pub is_text : Option String → String → Bool
is_text none s = false
is_text (some t) s = t == s

-- `UPDATE api_keys SET ... WHERE ...`
abbrev pub update_where : (Account → Bool) → (Account → Account) → Table → Table
update_where p f [] = []
update_where p f (a ∷ t) = (if p a then f a else a) ∷ update_where p f t

-- The row of a primary key.
abbrev pub find_row : String → Table → Option Account
find_row key_id [] = none
find_row key_id (a ∷ t) =
    let rest = find_row key_id t in if a.key_id == key_id then some a else rest

abbrev new_row : String → String → ℕ → String → Option String → Option String → Account
new_row key_id hash now tier owner_email customer = record {
  key_id = key_id;
  key_hash = hash;
  tier = tier;
  owner_email = owner_email;
  created_at = now;
  revoked = false;
  stripe_customer_id = customer;
  stripe_subscription_id = none;
  subscription_status = none;
  license_type = none;
  license_key = none;
}

-- The insertion, where the key and the hash of a row are unique; `hash` is of the new raw key.
unfoldable pub create :
    String → String → ℕ → String → Option String → Option String → Table → Result Account × Table
create key_id hash now tier owner_email customer t =
    let row = new_row key_id hash now tier owner_email customer in
    if any_of (λ a. a.key_id == key_id || a.key_hash == hash) t
    then (err (other_error "UniqueViolationError"), t)
    else (ok row, t ++ (row ∷ []))

unfoldable pub verify : String → Table → Option String
verify hash [] = none
verify hash (a ∷ t) =
    let rest = verify hash t in if a.key_hash == hash && not a.revoked then some a.key_id else rest

unfoldable pub revoke : String → Table → Table
revoke key_id = update_where (λ a. a.key_id == key_id) (λ a. record a { revoked = true })

pub get_tier : String → Table → String
get_tier key_id t = elim (find_row key_id t) [ none ↦ "free" | some a ↦ a.tier ]

-- `COALESCE($3, stripe_customer_id)`
abbrev pub coalesce : Option String → Option String → Option String
coalesce none b = b
coalesce (some a) b = some a

pub upgrade_tier : String → String → Option String → Option String → Table → Table
upgrade_tier key_id tier subscription customer =
    update_where (λ a. a.key_id == key_id)
      (λ a. record a {
        tier = tier;
        stripe_subscription_id = subscription;
        stripe_customer_id = coalesce customer a.stripe_customer_id;
        subscription_status = some "active";
      })

unfoldable pub update_subscription_status : String → String → Table → Table
update_subscription_status customer_id status =
    update_where (λ a. is_text a.stripe_customer_id customer_id)
      (λ a. record a { subscription_status = some status })

pub downgrade_to_free : String → Table → Table
downgrade_to_free customer_id =
    update_where (λ a. is_text a.stripe_customer_id customer_id)
      (λ a. record a {
        tier = "free";
        subscription_status = some "canceled";
        stripe_subscription_id = none;
      })

-- `ORDER BY created_at DESC LIMIT 1` over the rows of an address that are not revoked.
newest : String → Table → Option Account
newest email [] = none
newest email (a ∷ t) =
    let rest = newest email t in
    if is_text a.owner_email email && not a.revoked
    then elim rest [
      | none ↦ some a
      | some b ↦ if ltb a.created_at b.created_at then some b else some a
    ]
    else rest

with_license : String → String → String → Table → Table
with_license license_type raw_license key_id =
    update_where (λ a. a.key_id == key_id)
      (λ a. record a { license_type = some license_type; license_key = some raw_license })

unfoldable pub add_license : String → String → String → Table → Table
unfolding newest with_license
add_license key_id_or_email license_type raw_license t =
    if is_prefix_of (codes "key_") (codes key_id_or_email)
    then with_license license_type raw_license key_id_or_email t
    else elim (newest key_id_or_email t) [
      | none ↦ t
      | some a ↦ with_license license_type raw_license a.key_id t
    ]

-- `ORDER BY created_at DESC`
insert_newest : Account → Table → Table
insert_newest a [] = a ∷ []
insert_newest a (b ∷ t) =
    let rest = insert_newest a t in if ltb a.created_at b.created_at then b ∷ rest else a ∷ b ∷ t

newest_first : Table → Table
newest_first [] = []
newest_first (a ∷ t) = insert_newest a (newest_first t)

-- What `list_keys` shows of a key.
pub record KeyLine : Type 0 where
  pub key_id : String
  pub tier : String
  pub email : Option String
  pub revoked : Bool
  pub created_at : ℕ
  pub stripe_customer_id : Option String
  pub subscription_status : Option String
  pub license_type : Option String

pub key_line : Account → KeyLine
key_line a = record {
  key_id = a.key_id;
  tier = a.tier;
  email = a.owner_email;
  revoked = a.revoked;
  created_at = a.created_at;
  stripe_customer_id = a.stripe_customer_id;
  subscription_status = a.subscription_status;
  license_type = a.license_type;
}

pub list_keys : Table → List KeyLine
list_keys t = map key_line (newest_first t)
