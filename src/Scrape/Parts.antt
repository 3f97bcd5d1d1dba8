-- ===== src/Scrape/Parts.antt =====
-- What a scrape takes from the key store, the limiter and the sessions, and what it puts in the
-- headers: the helpers of asb_api/api/routes/scrape.py.
use asb_cloud_api.Base.{
  ℕ, max, String, ◌<>◌, Bool, true, false, Option, none, some, [], ◌∷◌, ◌==◌, leb, string_eq,
  nat_eq, if◌then◌else◌,
}
use asb_cloud_api.Base.Int.{pos}
use asb_cloud_api.Base.Dict.{lookup, get_or, insert}
use asb_cloud_api.Http.{Exc, Result, ok, err, Body, str, HttpException, text, body, raise_api_error}
use asb_cloud_api.Auth.{ApiKey, KeyStore}
use asb_cloud_api.Auth
use asb_cloud_api.RateLimit.{Limits, Windows, check_many}
use asb_cloud_api.Sessions.{Cookies, Store, Sessions, SessionInfo, update_cookies, increment_count}
use asb_cloud_api.Sessions
use asb_cloud_api.Sessions.Routes.{ensure_session_owner}
use asb_cloud_api.Models.{
  SessionType, stateful_reset, stateless, stateful, ScrapeRequest, ItemError,
}

-- `_get_key_tier`
unfoldable pub get_key_tier : String → KeyStore → String
get_key_tier key_id keys = elim (Auth.get key_id keys) [ none ↦ "free" | some key ↦ key.tier ]

-- `_check_rate_limit_units`; a grant is dropped.
unfoldable pub check_rate_limit_units :
    Option Limits → ℕ → String → String → ℕ → Windows → Option Exc × Windows
check_rate_limit_units none now key_id tier count windows = (none, windows)
check_rate_limit_units (some limits) now key_id tier count windows =
    let (result, windows') = check_many limits now key_id tier (pos (max 1 count)) windows in
    (elim result [ ok _ ↦ none | err e ↦ some e ], windows')

-- `_bulk_error_from_http_exception`
unfoldable pub bulk_error_from_http_exception : (Body → String) → HttpException → ItemError
bulk_error_from_http_exception repr exc = elim exc.detail [
  | body detail ↦ record {
    error_code = get_or "error_code" (str "BAD_REQUEST") detail;
    message = get_or "message" (str (repr detail)) detail;
  }
  | text detail ↦ record {
    error_code = str (if leb 500 exc.status_code then "WORKER_ERROR" else "BAD_REQUEST");
    message = str detail;
  }
]

-- `"; ".join(f"{k}={v}" for k, v in cookies.items())`
cookie_header : Cookies → String
cookie_header [] = ""
cookie_header ((k, v) ∷ []) = k <> ("=" <> v)
cookie_header ((k, v) ∷ c ∷ cookies) = (k <> ("=" <> v)) <> ("; " <> cookie_header (c ∷ cookies))

-- `f"{existing}; {cookie_header}" if existing else cookie_header`
joined : Option String → String → String
joined none cookies = cookies
joined (some existing) cookies = if existing == "" then cookies else existing <> ("; " <> cookies)

-- The session's cookies, if any, in the request's headers.
unfoldable pub with_cookies : Option SessionInfo → ScrapeRequest → ScrapeRequest
unfolding cookie_header joined
with_cookies none request = request
with_cookies (some session) request = elim session.cookies [
  | [] ↦ request
  | c ∷ cookies ↦ record request {
    headers =
        insert "Cookie" (joined (lookup "Cookie" request.headers) (cookie_header (c ∷ cookies)))
          request.headers;
  }
]

-- `if request.session_id`
unfoldable pub session_of : ScrapeRequest → Option String
session_of request = elim request.session_id [
  | none ↦ none
  | some id ↦ if id == "" then none else some id
]

is_reset : SessionType → Bool
is_reset stateful_reset = true
is_reset stateless = false
is_reset stateful = false

-- From what the store gave: the owner's test, and the reset.
unfoldable pub open_session :
    Store
    → ℕ
    → String
    → String
    → SessionType
    → Result (Option SessionInfo)
    → Sessions
    → Result SessionInfo × Sessions
unfolding is_reset
open_session store now id key_id kind (err e) sessions = (err e, sessions)
open_session store now id key_id kind (ok none) sessions = (
  raise_api_error 404 "SESSION_NOT_FOUND"
      "Session does not exist, expired, or is not owned by the key",
  sessions,
)
open_session store now id key_id kind (ok (some session)) sessions =
    elim (ensure_session_owner session key_id) [
      | err e ↦ (err e, sessions)
      | ok _ ↦
          if is_reset kind
          then (ok (record session { cookies = [] }), update_cookies store now id [] sessions)
          else (ok session, sessions)
    ]

-- The session of the request, if it names one.
unfoldable pub find_session :
    Option Store
    → ℕ
    → String
    → SessionType
    → Option String
    → Sessions
    → Result (Option SessionInfo) × Sessions
find_session store now key_id kind none sessions = (ok none, sessions)
find_session none now key_id kind (some id) sessions =
    (raise_api_error 503 "SERVICE_NOT_INITIALIZED" "Session store not initialized", sessions)
find_session (some store) now key_id kind (some id) sessions =
    let (found, sessions') = Sessions.get store now now id sessions in
    let (result, sessions'') = open_session store now id key_id kind found sessions' in
    (elim result [ ok session ↦ ok (some session) | err e ↦ err e ], sessions'')
