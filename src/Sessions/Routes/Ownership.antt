-- ===== src/Sessions/Routes/Ownership.antt =====
-- Sessions behind the routes belong to their key.
use asb_cloud_api.Base.{◌≡◌, ◌≢◌, ℕ, ◌≤◌, String, none, some, arith, string_eq}
use asb_cloud_api.Base.Dict.{lookup, insert}
use asb_cloud_api.Http.{ok, err}
use asb_cloud_api.Sessions.{Cookies, Session, Sessions, Store, load_cookies, info_of}
use asb_cloud_api.Sessions.Routes.{
  not_owner, checked, ensure_session_owner, view_of, get_session, delete_session,
}
use asb_cloud_api.Sessions.Expiry.{get-live, lookup-delete}

-- A live session answers its owner with its data, and the owner's deletion removes it.
pub routes_serve :
    (store : Store) (now later : ℕ) (id : String) (s : Session) (c : Cookies) (sessions : Sessions)
    → lookup id sessions ≡ some s
    → now ≤ s.expires_at
    → load_cookies store s.cookies ≡ ok c
    → let s' = record s { last_used = later } in
      (get_session (some store) now later id s.key_id sessions
        ≡ (ok (view_of (info_of s' c)), insert id s' sessions))
      × ((delete_session (some store) now later id s.key_id sessions).0 ≡ ok tt)
      × (lookup id (delete_session (some store) now later id s.key_id sessions).1 ≡ none)
unfolding get_session delete_session checked ensure_session_owner
routes_serve store now later id s c sessions found live loads =
    let s' = record s { last_used = later } in
    let got = get-live store now later id s sessions c found live loads in
    let gone = lookup-delete id (insert id s' sessions) in
    (ground (arith, got), ground (arith, got), ground (arith, got, gone))

-- A live session answers any key but its owner's with 404, under which it stays: neither route
-- shows or removes another key's session.
pub routes_isolate :
    (store : Store) (now later : ℕ) (id key : String) (s : Session) (c : Cookies)
    (sessions : Sessions)
    → lookup id sessions ≡ some s
    → now ≤ s.expires_at
    → load_cookies store s.cookies ≡ ok c
    → s.key_id ≢ key
    → let sessions' = insert id (record s { last_used = later }) sessions in
      (get_session (some store) now later id key sessions ≡ (err not_owner, sessions'))
      × (delete_session (some store) now later id key sessions ≡ (err not_owner, sessions'))
unfolding get_session delete_session checked ensure_session_owner
routes_isolate store now later id key s c sessions found live loads other =
    let got = get-live store now later id s sessions c found live loads in
    (ground (arith, got), ground (arith, got))
