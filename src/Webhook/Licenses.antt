-- ===== src/Webhook/Licenses.antt =====
-- The license keys that the webhook issues, asb_api/api/routes/webhooks.py, before the verification of
-- asb_api/billing/license.py.
use Prim.Native.Char.{code}
use Prim.Native.String.append
use native.Mathlib.Decide.{ℕ_discrete}
use asb_cloud_api.Base.{
  ◌≡◌, refl, ap, ◌∙◌, ℕ, String, ◌<>◌, true, false, none, some, List, [], ◌∷◌, ◌++◌, ◌==◌, contains,
  arith, nat_eq, string_eq,
}
use asb_cloud_api.Base.Text.{codes, is_prefix_of}
use asb_cloud_api.Base.Text.Split.{split, split-append, split-eq_self}
use asb_cloud_api.License.{parse_key, parse_parts, verify_full}
use asb_cloud_api.Accounts.{Account, Table, find_row, add_license}
use asb_cloud_api.Accounts.Tiers.{find_row-update_where, find_row-key_id}
use asb_cloud_api.Webhook.{
  Checkout, apply_event, checkout_completed, complete_checkout, buy_license,
}

codes-append : (s t : String) → codes (s <> t) ≡ codes s ++ codes t
codes-append String.[] t = ap codes (append.nil t)
codes-append (String.◌∷◌ c s) t =
    ap codes (append.cons c s t) ∙ ap (λ r. code c ∷ r) (codes-append s t)

issued-split :
    (token : String)
    → contains (codes token) b'_' ≡ false
    → split b'_' (codes ("sk_license_" <> token)) ≡ codes "sk" ∷ codes "license" ∷ codes token ∷ []
unfolding ℕ_discrete
issued-split token clean =
    ap (split b'_') (codes-append "sk_license_" token)
    ∙ split-append b'_' (codes "sk") (codes "license_" ++ codes token) refl
    ∙ ap (λ r. codes "sk" ∷ r)
        (split-append b'_' (codes "license") (codes token) refl
          ∙ ap (λ r. codes "license" ∷ r) (split-eq_self b'_' (codes token) clean))

issued-parse :
    (token : String)
    → contains (codes token) b'_' ≡ false
    → parse_key (codes ("sk_license_" <> token)) ≡ none
unfolding parse_key parse_parts
issued-parse token clean = ap parse_parts (issued-split token clean)

-- A checkout of a license for a key.
abbrev pub license_checkout : String → String → Checkout
license_checkout key_id license_type = record {
  key_id = some key_id;
  tier = none;
  license_type = some license_type;
  subscription = none;
  customer = none;
  customer_email = none;
}

license_checkout-adds :
    (token key_id license_type : String) (t : Table)
    → (key_id == "") ≡ false
    → (license_type == "") ≡ false
    → apply_event token (checkout_completed (license_checkout key_id license_type)) t
      ≡ add_license key_id license_type ("sk_license_" <> token) t
unfolding apply_event complete_checkout buy_license
license_checkout-adds token key_id license_type t has_key has_type = ground arith

add_license-row :
    (key_id license_type raw : String) (row : Account) (t : Table)
    → is_prefix_of (codes "key_") (codes key_id) ≡ true
    → find_row key_id t ≡ some row
    → find_row key_id (add_license key_id license_type raw t)
      ≡ some (record row { license_type = some license_type; license_key = some raw })
unfolding add_license
add_license-row key_id license_type raw row t is_key found =
    let licensed : Account → Account =
      λ a. record a { license_type = some license_type; license_key = some raw } in
    let own = find_row-update_where (λ a. a.key_id == key_id) licensed key_id t (λ _. refl) in
    ground (arith, own, find_row-key_id key_id row t found)

issued-stored :
    (token key_id license_type : String) (row : Account) (t : Table)
    → (key_id == "") ≡ false
    → (license_type == "") ≡ false
    → is_prefix_of (codes "key_") (codes key_id) ≡ true
    → find_row key_id t ≡ some row
    → find_row key_id
        (apply_event token (checkout_completed (license_checkout key_id license_type)) t)
      ≡ some (record row {
        license_type = some license_type;
        license_key = some ("sk_license_" <> token);
      })
issued-stored token key_id license_type row t has_key has_type is_key found =
    ap (find_row key_id) (license_checkout-adds token key_id license_type t has_key has_type)
    ∙ add_license-row key_id license_type ("sk_license_" <> token) row t is_key found

-- The license that a purchase stores with its key is refused as malformed by the verification, for
-- every type and domain and at every time, where the token has no underscore, as hexadecimal has none.
pub issued_malformed :
    (sign : List ℕ → List ℕ) (now : ℕ) (domain : List ℕ) (token key_id license_type : String)
    (row : Account) (t : Table)
    → (key_id == "") ≡ false
    → (license_type == "") ≡ false
    → is_prefix_of (codes "key_") (codes key_id) ≡ true
    → find_row key_id t ≡ some row
    → contains (codes token) b'_' ≡ false
    → (find_row key_id
          (apply_event token (checkout_completed (license_checkout key_id license_type)) t)
        ≡ some (record row {
          license_type = some license_type;
          license_key = some ("sk_license_" <> token);
        }))
      × (verify_full sign now (codes ("sk_license_" <> token)) (codes license_type) domain
          ≡ (false, "Malformed license key"))
unfolding verify_full
issued_malformed sign now domain token key_id license_type row t has_key has_type is_key found
      clean =
    (
      issued-stored token key_id license_type row t has_key has_type is_key found,
      rw (issued-parse token clean, verify_full) refl,
    )
