-- ===== src/Security/Settings.antt =====
-- The security section of the configuration, `set_security_config` and `get_security_config` of
-- asb_api/security.py.
use asb_cloud_api.Base.{Bool, true, false, Option, none, some, [], ◌∷◌}
use asb_cloud_api.Security.{SecurityConfig}

-- The keys of the section; one that is missing is `none`.
pub record SecuritySection : Type 0 where
  pub log_url_domains_only : Option Bool
  pub redact_authorization_headers : Option Bool
  pub block_private_networks : Option Bool

abbrev given : Bool → Option Bool → Bool
given default none = default
given default (some b) = b

-- `SecurityConfig()` of the given values; the schemes are those of `__post_init__`.
abbrev pub config_of : Bool → Bool → Bool → SecurityConfig
config_of domains_only redact block_private = record {
  log_url_domains_only = domains_only;
  redact_authorization_headers = redact;
  block_private_networks = block_private;
  allowed_schemes = "http" ∷ "https" ∷ [];
}

-- `set_security_config` of a dict, whose section may be missing.
unfoldable pub set_security_config : Option SecuritySection → SecurityConfig
set_security_config none = config_of true true false
set_security_config (some sec) =
    config_of (given true sec.log_url_domains_only) (given true sec.redact_authorization_headers)
      (given false sec.block_private_networks)

-- What was set, or the defaults.
unfoldable pub get_security_config : Option SecurityConfig → SecurityConfig
get_security_config none = config_of true true false
get_security_config (some cfg) = cfg
