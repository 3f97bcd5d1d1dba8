-- ===== src/Sessions/Routes.antt =====
-- The session routes: asb_api/api/routes/sessions.py. The caller's key is the one that
-- authentication gave. A store that is not there is `none`.
pub mod Ownership
use asb_cloud_api.Base.{ℕ, String, Option, none, some, ◌==◌, string_eq, if◌then◌else◌}
use asb_cloud_api.Http.{Result, ok, err, Exc, http, text, raise_api_error}
use asb_cloud_api.Sessions.{Store, Sessions, SessionInfo, create, get, delete}

-- What `create_session` returns.
pub record Created : Type 0 where
  pub session_id : String
  pub created_at : ℕ
  pub expires_at : ℕ

-- What `get_session` returns.
pub record View : Type 0 where
  pub session_id : String
  pub region : String
  pub fingerprint : Option String
  pub request_count : ℕ
  pub created_at : ℕ
  pub last_used : ℕ
  pub expires_at : ℕ

-- `HTTPException(404, "Session not found")`
abbrev pub not_owner : Exc
not_owner = http (record { status_code = 404; detail = text "Session not found"; headers = none })

-- `ensure_session_owner`
pub ensure_session_owner : SessionInfo → String → Result (Unit {0})
ensure_session_owner session key_id = if session.key_id == key_id then ok tt else err not_owner

-- `if not session: raise ...` and the owner's test, on what the store gave.
checked : String → Result (Option SessionInfo) → Result SessionInfo
checked key_id (err e) = err e
checked key_id (ok none) =
    raise_api_error 404 "SESSION_NOT_FOUND"
      "Session does not exist, expired, or is not owned by the key"
checked key_id (ok (some session)) = elim (ensure_session_owner session key_id) [
  | ok _ ↦ ok session
  | err e ↦ err e
]

unfoldable no_store {ℓ} : {A : Type ℓ} → Result A
no_store = raise_api_error 503 "SERVICE_NOT_INITIALIZED" "Session store not initialized"

unfoldable created_of : SessionInfo → Created
created_of s = record {
  session_id = s.session_id;
  created_at = s.created_at;
  expires_at = s.expires_at;
}

unfoldable pub view_of : SessionInfo → View
view_of s = record {
  session_id = s.session_id;
  region = s.region;
  fingerprint = s.fingerprint;
  request_count = s.request_count;
  created_at = s.created_at;
  last_used = s.last_used;
  expires_at = s.expires_at;
}

unfoldable pub create_session :
    Option Store
    → String
    → ℕ
    → String
    → String
    → Option String
    → Sessions
    → Result Created × Sessions
unfolding no_store created_of
create_session none token now key_id region fingerprint sessions = (no_store, sessions)
create_session (some store) token now key_id region fingerprint sessions =
    let (result, sessions') = create store token now key_id region fingerprint sessions in
    (elim result [ ok session ↦ ok (created_of session) | err e ↦ err e ], sessions')

pub get_session : Option Store → ℕ → ℕ → String → String → Sessions → Result View × Sessions
get_session none now later session_id key_id sessions = (no_store, sessions)
get_session (some store) now later session_id key_id sessions =
    let (result, sessions') = get store now later session_id sessions in
    (elim (checked key_id result) [ ok session ↦ ok (view_of session) | err e ↦ err e ], sessions')

-- The result stands for the response 204.
pub delete_session :
    Option Store → ℕ → ℕ → String → String → Sessions → Result (Unit {0}) × Sessions
delete_session none now later session_id key_id sessions = (no_store, sessions)
delete_session (some store) now later session_id key_id sessions =
    let (result, sessions') = get store now later session_id sessions in
    elim (checked key_id result) [
      | ok _ ↦ (ok tt, delete session_id sessions')
      | err e ↦ (err e, sessions')
    ]
