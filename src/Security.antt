-- ===== src/Security.antt =====
-- URL safety and redaction: asb_api/security.py. What `urlparse`, `ipaddress` and the resolver answer
-- are parameters. A host is the list of its code points; a scheme is a text in lower case already,
-- as `urlparse` gives it.
pub mod Urls
pub mod Settings
pub mod Redaction
use asb_cloud_api.Base.{
  ℕ, String, ◌<>◌, Bool, true, false, not, ◌&&◌, ◌||◌, Option, none, some, List, [], ◌∷◌, ◌==◌,
  any_of, contains, take, length, ltb, nat_eq, string_eq, if◌then◌else◌,
}
use asb_cloud_api.Base.Text.{codes, lower, is_prefix_of, is_infix_of}
use asb_cloud_api.Http.{Result, ok, err, http, api_error}

pub record SecurityConfig : Type 0 where
  pub log_url_domains_only : Bool
  pub redact_authorization_headers : Bool
  pub block_private_networks : Bool
  pub allowed_schemes : List String

-- What `urlparse` returns, as far as it is read.
pub record Url : Type 0 where
  pub scheme : String
  pub netloc : List ℕ
  pub hostname : Option (List ℕ)

-- `urlparse`, which may raise; any of `is_private`, `is_loopback`, `is_link_local`, `is_reserved` and
-- `is_unspecified` of a text that is an address; the addresses that a host resolves to.
pub record Net : Type 0 where
  pub urlparse : String → Option Url
  pub is_private_ip : List ℕ → Bool
  pub resolve : List ℕ → List (List ℕ)

abbrev pub same_text : List ℕ → List ℕ → Bool
same_text s t = is_prefix_of s t && is_prefix_of t s

abbrev pub ends_with : List ℕ → List ℕ → Bool
ends_with [] p = same_text p []
ends_with (c ∷ s) p = same_text p (c ∷ s) || ends_with s p

-- `s.strip("[]")`
abbrev is_bracket : ℕ → Bool
is_bracket c = c == b'[' || c == b']'

abbrev left_strip : List ℕ → List ℕ
left_strip [] = []
left_strip (c ∷ s) = let rest = left_strip s in if is_bracket c then rest else c ∷ s

abbrev right_strip : List ℕ → List ℕ
right_strip [] = []
right_strip (c ∷ s) = elim (right_strip s) [
  | [] ↦ if is_bracket c then [] else c ∷ []
  | d ∷ r ↦ c ∷ d ∷ r
]

abbrev pub strip_brackets : List ℕ → List ℕ
strip_brackets s = right_strip (left_strip s)

-- `PRIVATE_HOSTNAMES`
abbrev private_hostnames : List String
private_hostnames =
    "localhost" ∷ "localhost.localdomain" ∷ "127.0.0.1" ∷ "::1" ∷ "0.0.0.0"
    ∷ "metadata.google.internal" ∷ "169.254.169.254" ∷ []

abbrev internal_suffixes : List String
internal_suffixes = ".local" ∷ ".internal" ∷ ".lan" ∷ []

abbrev internal_parts : List String
internal_parts =
    "metadata" ∷ "169.254" ∷ "10." ∷ "192.168." ∷ "172.16." ∷ "172.17." ∷ "172.18." ∷ []

unfoldable pub is_private_address : Net → List ℕ → Bool
is_private_address net address = net.is_private_ip (strip_brackets address)

unfoldable pub is_private_or_localhost : Net → List ℕ → Bool
unfolding is_private_address
is_private_or_localhost net [] = true
is_private_or_localhost net (c ∷ host) =
    let host_lower = strip_brackets (lower (c ∷ host)) in
    any_of (λ name. same_text (codes name) host_lower) private_hostnames
    || (is_private_address net host_lower
        || (any_of (λ suffix. ends_with host_lower (codes suffix)) internal_suffixes
            || (any_of (λ part. is_infix_of (codes part) host_lower) internal_parts
                || any_of (is_private_address net) (net.resolve host_lower))))

-- `netloc.split(":")[0]`
abbrev pub before_colon : List ℕ → List ℕ
before_colon [] = []
before_colon (c ∷ s) = let rest = before_colon s in if c == b':' then [] else c ∷ rest

-- `parsed.hostname or parsed.netloc.split(":")[0]`
abbrev pub host_of : Url → List ℕ
host_of url = elim url.hostname [
  | none ↦ before_colon url.netloc
  | some [] ↦ before_colon url.netloc
  | some (c ∷ host) ↦ c ∷ host
]

abbrev is_nil : List ℕ → Bool
is_nil [] = true
is_nil (_ ∷ _) = false

-- `HTTPException(400, {"error_code": ..., "message": ...})`
unfoldable pub bad_url : String → String → Result String
unfolding api_error
bad_url code message = err (http (api_error 400 code message none []))

-- `cfg.allowed_schemes or {"http", "https"}`
abbrev pub schemes_of : SecurityConfig → List String
schemes_of cfg = elim cfg.allowed_schemes [ [] ↦ "http" ∷ "https" ∷ [] | s ∷ schemes ↦ s ∷ schemes ]

-- From what `urlparse` gave.
unfoldable pub validate_parsed : Net → SecurityConfig → String → Option Url → Result String
validate_parsed net cfg url none =
    bad_url "INVALID_URL_SCHEME" "URL must include scheme and host (e.g. https://example.com)"
validate_parsed net cfg url (some parsed) =
    if parsed.scheme == "" || is_nil parsed.netloc
    then bad_url "INVALID_URL_SCHEME" "URL must include scheme and host (e.g. https://example.com)"
    else if not (contains (schemes_of cfg) parsed.scheme)
    then bad_url "INVALID_URL_SCHEME"
        ("Unsupported URL scheme '" <> (parsed.scheme <> "'. Only http and https are allowed."))
    else if cfg.block_private_networks && is_private_or_localhost net (host_of parsed)
    then bad_url "PRIVATE_NETWORK_BLOCKED"
        "Requests to private networks, localhost, or internal metadata services are not allowed in this configuration."
    else ok url

unfoldable pub validate_scrape_url : Net → SecurityConfig → String → Result String
unfolding validate_parsed
validate_scrape_url net cfg url =
    if url == ""
    then bad_url "BAD_REQUEST" "Missing or invalid URL"
    else validate_parsed net cfg url (net.urlparse url)

abbrev sensitive : List String
sensitive = "authorization" ∷ "proxy-authorization" ∷ "x-api-key" ∷ "cookie" ∷ []

unfoldable pub is_sensitive : String → Bool
is_sensitive k = any_of (λ name. same_text (codes name) (lower (codes k))) sensitive

-- `redact_auth` is `None` for the setting of the configuration; headers that are `None` are empty.
unfoldable pub redact_headers_for_logging :
    SecurityConfig → Option Bool → List (String × String) → List (String × String)
redact_headers_for_logging cfg redact_auth [] = []
redact_headers_for_logging cfg redact_auth ((k, v) ∷ headers) =
    let should_redact : Bool = elim redact_auth [
      | none ↦ cfg.redact_authorization_headers
      | some b ↦ b
    ] in
    let rest = redact_headers_for_logging cfg redact_auth headers in
    (if should_redact && is_sensitive k then (k, "[REDACTED]") else (k, v)) ∷ rest

unfoldable pub redact_api_key_for_logging : List ℕ → List ℕ
redact_api_key_for_logging [] = []
redact_api_key_for_logging (c ∷ raw_key) =
    if ltb 12 (length (c ∷ raw_key)) then codes_dots (take 12 (c ∷ raw_key)) else codes "[REDACTED]"
  where
    codes_dots : List ℕ → List ℕ
    codes_dots [] = codes "..."
    codes_dots (c' ∷ s) = c' ∷ codes_dots s
