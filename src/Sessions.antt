-- ===== src/Sessions.antt =====
-- Sessions in memory: asb_api/session/store.py and SessionInfo of asb_api/session/models.py. Times
-- are in microseconds, the lifetime in seconds. Fernet and json come as parameters.
pub mod Routes
pub mod Expiry
pub mod Spec
use asb_cloud_api.Base.{
  ℕ, ◌+◌, ◌*◌, String, ◌<>◌, Option, none, some, [], ltb, string_eq, if◌then◌else◌,
}
use asb_cloud_api.Base.Dict.{Dict, lookup, insert, erase}
use asb_cloud_api.Http.{Result, ok, err, other_error, ◌>>=◌}
use asb_cloud_api.RateLimit.{second}

abbrev pub Cookies : Type 0
Cookies = Dict String String

-- `json.dumps` and `json.loads` of a dict of texts; `none` is an exception.
pub record Json : Type 0 where
  pub dumps : Cookies → String
  pub loads : String → Option Cookies

-- `Fernet(key)`; `none` is `InvalidToken`.
pub record Fernet : Type 0 where
  pub encrypt : String → String
  pub decrypt : String → Option String

-- What the store holds for cookies: the dict, or the encrypted text.
pub data Stored : Type 0 where
  plain : Cookies → Stored
  sealed : String → Stored

pub record Session : Type 0 where
  pub session_id : String
  pub key_id : String
  pub region : String
  pub fingerprint : Option String
  pub cookies : Stored
  pub created_at : ℕ
  pub last_used : ℕ
  pub request_count : ℕ
  pub expires_at : ℕ

-- `class SessionInfo`
pub record SessionInfo : Type 0 where
  pub session_id : String
  pub key_id : String
  pub region : String
  pub fingerprint : Option String
  pub cookies : Cookies
  pub created_at : ℕ
  pub last_used : ℕ
  pub request_count : ℕ
  pub expires_at : ℕ

-- `self._sessions`
abbrev pub Sessions : Type 0
Sessions = Dict String Session

-- The settings of a store.
pub record Store : Type 0 where
  pub json : Json
  pub fernet : Option Fernet
  pub ttl_seconds : ℕ

unfoldable pub store_cookies : Store → Cookies → Stored
store_cookies store cookies = elim store.fernet [
  | none ↦ plain cookies
  | some f ↦ sealed (f.encrypt (store.json.dumps cookies))
]

-- `json.loads(self._decrypt(...))`
unfoldable pub unseal : Store → Fernet → String → Result Cookies
unseal store f token = elim (f.decrypt token) [
  | none ↦ err (other_error "InvalidToken")
  | some text ↦ elim (store.json.loads text) [
    | none ↦ err (other_error "JSONDecodeError")
    | some cookies ↦ ok cookies
  ]
]

unfoldable pub load_with : Store → Option Fernet → Stored → Result Cookies
load_with store none (plain cookies) = ok cookies
load_with store none (sealed _) = ok []
load_with store (some f) (plain cookies) = ok cookies
load_with store (some f) (sealed token) = unseal store f token

unfoldable pub load_cookies : Store → Stored → Result Cookies
load_cookies store stored = load_with store store.fernet stored

abbrev pub info_of : Session → Cookies → SessionInfo
info_of s cookies = record {
  session_id = s.session_id;
  key_id = s.key_id;
  region = s.region;
  fingerprint = s.fingerprint;
  cookies = cookies;
  created_at = s.created_at;
  last_used = s.last_used;
  request_count = s.request_count;
  expires_at = s.expires_at;
}

pub session_info_from_record : Store → Session → Result SessionInfo
session_info_from_record store s =
    load_cookies store s.cookies >>= λ cookies. ok (info_of s cookies)

-- `token` is `uuid.uuid4().hex[:12]`.
pub new_session : Store → String → ℕ → String → String → Option String → Session
new_session store token now key_id region fingerprint = record {
  session_id = "sess_" <> token;
  key_id = key_id;
  region = region;
  fingerprint = fingerprint;
  cookies = store_cookies store [];
  created_at = now;
  last_used = now;
  request_count = 0;
  expires_at = now + store.ttl_seconds * second;
}

pub create :
    Store → String → ℕ → String → String → Option String → Sessions → Result SessionInfo × Sessions
create store token now key_id region fingerprint sessions =
    let s = new_session store token now key_id region fingerprint in
    (session_info_from_record store s, insert s.session_id s sessions)

some_info : Result SessionInfo → Result (Option SessionInfo)
some_info r = r >>= λ info. ok (some info)

-- `now` is the clock at the test, `later` the clock at the update.
pub get : Store → ℕ → ℕ → String → Sessions → Result (Option SessionInfo) × Sessions
get store now later session_id sessions = elim (lookup session_id sessions) [
  | none ↦ (ok none, sessions)
  | some s ↦
      if ltb s.expires_at now
      then (ok none, erase session_id sessions)
      else (let s' = record s { last_used = later } in
          (some_info (session_info_from_record store s'), insert session_id s' sessions))
]

-- The change of one session, where it is there.
abbrev pub change : String → (Session → Session) → Sessions → Sessions
change session_id f sessions = elim (lookup session_id sessions) [
  | none ↦ sessions
  | some s ↦ insert session_id (f s) sessions
]

pub update_cookies : Store → ℕ → String → Cookies → Sessions → Sessions
update_cookies store now session_id cookies =
    change session_id λ s. record s { cookies = store_cookies store cookies; last_used = now }

pub increment_count : ℕ → String → Sessions → Sessions
increment_count now session_id =
    change session_id λ s. record s { request_count = s.request_count + 1; last_used = now }

pub delete : String → Sessions → Sessions
delete session_id sessions = erase session_id sessions
