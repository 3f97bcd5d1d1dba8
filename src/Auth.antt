-- ===== src/Auth.antt =====
-- The key store in memory and the authentication of requests: asb_api/api/auth.py. A raw key is
-- the list of its code points; SHA-256 and the random tokens are parameters.
pub mod Keys
use asb_cloud_api.Base.{
  ℕ, String, ◌<>◌, Bool, true, false, not, ◌&&◌, Option, none, some, List, [], ◌∷◌, ◌++◌, ◌==◌,
  string_eq, if◌then◌else◌, map,
}
use asb_cloud_api.Base.Dict.{Dict, lookup, insert}
use asb_cloud_api.Base.Text.{codes}
use asb_cloud_api.Base.Text.Strip.{strip, remove_prefix}
use asb_cloud_api.Http.{Result, ok, raise_api_error}

-- `class APIKey`
pub record ApiKey : Type 0 where
  pub key_id : String
  pub key_hash : String
  pub tier : String
  pub owner_email : Option String
  pub created_at : ℕ
  pub revoked : Bool

-- The dict that the store keeps for a key.
pub record KeyInfo : Type 0 where
  pub hash : String
  pub tier : String
  pub email : Option String
  pub revoked : Bool
  pub created_at : ℕ

-- `self._keys`
abbrev pub KeyStore : Type 0
KeyStore = Dict String KeyInfo

-- One line of `list_keys`.
pub record KeyLine : Type 0 where
  pub key_id : String
  pub tier : String
  pub email : Option String
  pub revoked : Bool

pub api_key_of : String → KeyInfo → ApiKey
api_key_of key_id info = record {
  key_id = key_id;
  key_hash = info.hash;
  tier = info.tier;
  owner_email = info.email;
  created_at = info.created_at;
  revoked = info.revoked;
}

-- What `create` stores.
abbrev pub new_info : String → String → Option String → ℕ → KeyInfo
new_info hash tier email now = record {
  hash = hash;
  tier = tier;
  email = email;
  revoked = false;
  created_at = now;
}

-- A raw key from its random part.
abbrev pub raw_key : List ℕ → List ℕ
raw_key token = codes "sk_live_" ++ token

abbrev pub key_id_of : String → String
key_id_of token = "key_" <> token

abbrev accepts : String → KeyInfo → Bool
accepts h info = not info.revoked && h == info.hash

-- The loop of `verify`, which returns at the first key that fits.
unfoldable pub find_key : String → KeyStore → Option String
find_key h [] = none
find_key h ((kid, info) ∷ keys) =
    let rest = find_key h keys in if accepts h info then some kid else rest

module _ (sha256 : List ℕ → String) where
  -- The arguments are `secrets.token_hex(24)`, `secrets.token_hex(8)` and the clock.
  pub create : List ℕ → String → ℕ → String → Option String → KeyStore → List ℕ × ApiKey × KeyStore
  unfolding api_key_of
  create token id_token now tier owner_email keys =
      let raw = raw_key token in
      let key_id = key_id_of id_token in
      let info = new_info (sha256 raw) tier owner_email now in
      (raw, api_key_of key_id info, insert key_id info keys)

  unfoldable pub verify : List ℕ → KeyStore → Option String
  unfolding find_key
  verify raw keys = find_key (sha256 raw) keys

unfoldable pub get : String → KeyStore → Option ApiKey
unfolding api_key_of
get key_id keys = elim (lookup key_id keys) [
  | none ↦ none
  | some info ↦ some (api_key_of key_id info)
]

unfoldable pub revoke : String → KeyStore → KeyStore
revoke key_id keys = elim (lookup key_id keys) [
  | none ↦ keys
  | some info ↦ insert key_id (record info { revoked = true }) keys
]

unfoldable pub list_keys : KeyStore → List KeyLine
list_keys = map λ (kid, info). record {
  key_id = kid;
  tier = info.tier;
  email = info.email;
  revoked = info.revoked;
}

-- `raise APIError(403, "INVALID_API_KEY", ...)` unless the store knows the key.
accept_key : Option String → Result String
accept_key none = raise_api_error 403 "INVALID_API_KEY" "API key is invalid or revoked"
accept_key (some key_id) =
    if key_id == ""
    then raise_api_error 403 "INVALID_API_KEY" "API key is invalid or revoked"
    else ok key_id

missing_auth : Result String
missing_auth = raise_api_error 403 "MISSING_AUTH" "Authorization header missing"

-- `get_key_store`: the global, which a first call sets where it is not set.
unfoldable pub get_key_store : Option KeyStore → KeyStore × Option KeyStore
get_key_store none = ([], some [])
get_key_store (some store) = (store, some store)

-- The store's `verify` is an argument: either store's fits.
pub get_api_key : (List ℕ → Option String) → Option (List ℕ) → Result String
unfolding accept_key missing_auth
get_api_key verify none = missing_auth
get_api_key verify (some []) = missing_auth
get_api_key verify (some (c ∷ header)) =
    accept_key (verify (strip (remove_prefix (codes "Bearer ") (c ∷ header))))
