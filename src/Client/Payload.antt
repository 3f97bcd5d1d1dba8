-- ===== src/Client/Payload.antt =====
-- The bodies that the client sends for `scrape` and `create_session`, and how the service reads the
-- first: a field that is not there has the default of `ScrapeRequest` in asb_api/session/models.py.
use asb_cloud_api.Base.{
  ◌≡◌, refl, ℕ, String, Bool, false, ◌==◌, Option, none, some, [], ◌∷◌, string_eq, if◌then◌else◌,
}
use asb_cloud_api.Base.Dict.{Dict}
use asb_cloud_api.Models.{ScrapeRequest, SessionType, stateless}

-- The JSON dict; a field that is `none` is not in it.
pub record Payload : Type 0 where
  pub url : String
  pub method : Option String
  pub timeout : Option ℕ
  pub screenshot : Option Bool
  pub session_type : Option SessionType
  pub headers : Option (Dict String String)
  pub body : Option String
  pub proxy_provider : Option String
  pub region : Option String
  pub fingerprint : Option String
  pub session_id : Option String

-- `if x: payload[...] = x`
abbrev pub if_true : Option String → Option String
if_true none = none
if_true (some s) = if s == "" then none else some s

abbrev pub headers_if_true : Dict String String → Option (Dict String String)
headers_if_true [] = none
headers_if_true (h ∷ hs) = some (h ∷ hs)

-- The arguments of `AsbClient.scrape`; headers that are `None` are the empty dict.
unfoldable pub scrape_payload : ScrapeRequest → Payload
scrape_payload a = record {
  url = a.url;
  method = some a.method;
  timeout = some a.timeout;
  screenshot = some a.screenshot;
  session_type = some a.session_type;
  headers = headers_if_true a.headers;
  body = a.body;
  proxy_provider = if_true a.proxy_provider;
  region = if_true a.region;
  fingerprint = if_true a.fingerprint;
  session_id = if_true a.session_id;
}

abbrev default {ℓ} : {A : Type ℓ} → A → Option A → A
default a none = a
default a (some b) = b

-- `ScrapeRequest(**payload)`
pub request_of : Payload → ScrapeRequest
request_of p = record {
  url = p.url;
  method = default "GET" p.method;
  headers = default [] p.headers;
  body = p.body;
  proxy_provider = p.proxy_provider;
  region = p.region;
  fingerprint = p.fingerprint;
  timeout = default 30 p.timeout;
  screenshot = default false p.screenshot;
  session_id = p.session_id;
  session_type = default stateless p.session_type;
}

headers-default : (headers : Dict String String) → default [] (headers_if_true headers) ≡ headers
headers-default [] = refl
headers-default (h ∷ hs) = refl

-- The service reads the request that the client was called with, save that an empty text for the
-- provider, the region, the fingerprint or the session counts as not given.
pub request_of-scrape_payload :
    (a : ScrapeRequest)
    → request_of (scrape_payload a) ≡ record a {
      proxy_provider = if_true a.proxy_provider;
      region = if_true a.region;
      fingerprint = if_true a.fingerprint;
      session_id = if_true a.session_id;
    }
unfolding request_of scrape_payload
request_of-scrape_payload a = rw (headers-default a.headers) refl

-- The body of `create_session`.
unfoldable pub session_payload : String → Option String → Dict String String
session_payload region fingerprint = elim (if_true fingerprint) [
  | none ↦ ("region", region) ∷ []
  | some f ↦ ("region", region) ∷ ("fingerprint", f) ∷ []
]
