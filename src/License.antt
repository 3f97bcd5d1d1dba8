-- ===== src/License.antt =====
-- Self-hosted license keys: asb_api/billing/license.py and the route of
-- asb_api/api/routes/licenses.py. Texts are lists of code points; `sign` is the hexadecimal
-- HMAC-SHA256 under the secret key.
pub mod Keys
use asb_cloud_api.Base.{
  ℕ, ◌*◌, String, Bool, true, false, not, ◌&&◌, ◌||◌, Option, none, some, List, [], ◌∷◌, ◌++◌, ◌==◌,
  ltb, leb, length, take, any_of, nat_eq, string_eq, if◌then◌else◌,
}
use asb_cloud_api.Base.Int.{ℤ, pos, negsuc, eqb_ℤ}
use asb_cloud_api.Base.Text.{codes}
use asb_cloud_api.Base.Text.Numerals.{show_int, parse_int}
use asb_cloud_api.Base.Text.Split.{split}
use asb_cloud_api.Http.{Result, ok, raise_api_error}
use asb_cloud_api.RateLimit.{second}

-- Equality of two texts; `compare_digest` and `==` alike.
unfoldable pub text_eq : List ℕ → List ℕ → Bool
text_eq [] [] = true
text_eq [] (_ ∷ _) = false
text_eq (_ ∷ _) [] = false
text_eq (a ∷ s) (b ∷ t) = a == b && text_eq s t

-- `char in string.hexdigits`
abbrev pub is_hex : ℕ → Bool
is_hex c = (leb b'0' c && leb c b'9') || ((leb b'a' c && leb c b'f') || (leb b'A' c && leb c b'F'))

unfoldable pub payload : List ℕ → List ℕ → List ℕ → ℤ → List ℕ
payload license_type domain token expiry_ts =
    license_type ++ (b':' ∷ (domain ++ (b':' ∷ (token ++ (b':' ∷ show_int expiry_ts)))))

-- The token, the expiry and the signature of a key.
abbrev pub Parsed : Type 0
Parsed = List ℕ × ℤ × List ℕ

unfoldable pub with_expiry : List ℕ → List ℕ → Option ℤ → Option Parsed
with_expiry token sig none = none
with_expiry token sig (some expiry_ts) = some (token, expiry_ts, sig)

unfoldable pub parse_fields : List ℕ → List ℕ → List ℕ → List ℕ → List ℕ → Option Parsed
parse_fields head kind token expiry_raw sig =
    if not (text_eq head (codes "sk")) || not (text_eq kind (codes "license"))
    then none
    else if not (length token == 16) || not (length sig == 16)
    then none
    else if any_of (λ c. not (is_hex c)) (token ++ sig)
    then none
    else with_expiry token sig (parse_int expiry_raw)

unfoldable pub parse_parts : List (List ℕ) → Option Parsed
parse_parts (head ∷ kind ∷ token ∷ expiry_raw ∷ sig ∷ []) =
    parse_fields head kind token expiry_raw sig
parse_parts _ = none

unfoldable pub parse_key : List ℕ → Option Parsed
parse_key license_key = parse_parts (split b'_' license_key)

-- `time.time() > expiry_ts`
abbrev pub is_past : ℕ → ℤ → Bool
is_past now (pos n) = ltb (n * second) now
is_past now (negsuc _) = true

module _ (sign : List ℕ → List ℕ) where
  unfoldable pub signature : List ℕ → List ℕ → List ℕ → ℤ → List ℕ
  signature license_type domain token expiry_ts =
      take 16 (sign (payload license_type domain token expiry_ts))

  -- The token is `secrets.token_hex(8)`.
  unfoldable pub generate : List ℕ → List ℕ → List ℕ → ℤ → List ℕ
  generate token license_type domain expiry_ts =
      codes "sk_license_"
      ++ (token
          ++ (b'_'
              ∷ (show_int expiry_ts ++ (b'_' ∷ signature license_type domain token expiry_ts))))

  pub verify : List ℕ → List ℕ → List ℕ → ℤ → Bool
  verify license_key license_type domain expiry_ts = elim (parse_key license_key) [
    | none ↦ false
    | some (token, parsed_expiry, provided_sig) ↦
        if eqb_ℤ parsed_expiry expiry_ts
        then text_eq (signature license_type domain token expiry_ts) provided_sig
        else false
  ]

  unfoldable pub verify_full : ℕ → List ℕ → List ℕ → List ℕ → Bool × String
  verify_full now license_key license_type domain = elim (parse_key license_key) [
    | none ↦ (false, "Malformed license key")
    | some (token, expiry_ts, provided_sig) ↦
        if is_past now expiry_ts
        then (false, "License key expired")
        else if text_eq (signature license_type domain token expiry_ts) provided_sig
        then (true, "")
        else (false, "Invalid license signature")
  ]

-- The route `/v1/billing/verify-license`: `hmac_hex` takes the secret key first.
unfoldable pub verify_license :
    (List ℕ → List ℕ → List ℕ) → List ℕ → ℕ → List ℕ → List ℕ → List ℕ → Result Bool
verify_license hmac_hex [] now license_key license_type domain =
    raise_api_error 500 "INTERNAL_ERROR" "LICENSE_SECRET_KEY not configured"
verify_license hmac_hex (c ∷ secret) now license_key license_type domain =
    let (valid, error) = verify_full (hmac_hex (c ∷ secret)) now license_key license_type domain in
    if valid
    then ok true
    else raise_api_error 400 "BAD_REQUEST"
        (if error == "" then "License verification failed" else error)
