-- ===== src/Sessions/Expiry.antt =====
-- What `get` finds, and when a session ends.
use asb_cloud_api.Base.{
  ◌≡◌, refl, ◌≢◌, inl, inr, ℕ, ◌+◌, ◌*◌, ◌≤◌, ◌<◌, String, Option, none, some, [], arith, string_eq,
  Option-cases,
}
use asb_cloud_api.Base.Dict.{
  lookup, insert, erase, lookup-insert_self, lookup-insert_ne, lookup-erase,
}
use asb_cloud_api.Http.{ok}
use asb_cloud_api.RateLimit.{second}
use asb_cloud_api.Sessions.{
  Cookies, Fernet, Session, Sessions, Store, store_cookies, load_cookies, load_with, unseal,
  session_info_from_record, some_info, new_session, create, get, update_cookies, increment_count,
  delete, info_of,
}

-- What the store relies on: what was encoded and encrypted comes back.
pub record IsFaithful (store : Store) : Type 0 where
  pub loads-dumps : (c : Cookies) → store.json.loads (store.json.dumps c) ≡ some c
  pub decrypt-encrypt :
      (f : Fernet) → store.fernet ≡ some f → (t : String) → f.decrypt (f.encrypt t) ≡ some t

-- Stored cookies come back, in the clear or encrypted.
pub load-store_cookies :
    (store : Store) (c : Cookies)
    → IsFaithful store
    → load_cookies store (store_cookies store c) ≡ ok c
unfolding load_cookies store_cookies load_with unseal
load-store_cookies store c h = elim (Option-cases store.fernet) [
  | inl clear ↦ ground arith
  | inr (f, e) ↦ ground (arith, h.decrypt-encrypt f e (store.json.dumps c), h.loads-dumps c)
]

pub get-expired :
    (store : Store) (now later : ℕ) (id : String) (s : Session) (sessions : Sessions)
    → lookup id sessions ≡ some s
    → s.expires_at < now
    → get store now later id sessions ≡ (ok none, erase id sessions)
unfolding get
get-expired store now later id s sessions found old = ground arith

pub get-live :
    (store : Store) (now later : ℕ) (id : String) (s : Session) (sessions : Sessions) (c : Cookies)
    → lookup id sessions ≡ some s
    → now ≤ s.expires_at
    → load_cookies store s.cookies ≡ ok c
    → let s' = record s { last_used = later } in
      get store now later id sessions ≡ (ok (some (info_of s' c)), insert id s' sessions)
unfolding get some_info session_info_from_record
get-live store now later id s sessions c found live loads = ground arith

-- A new session is found, with its owner, no cookies and no requests, up to its lifetime after its
-- creation.
pub get-create :
    (store : Store) (token : String) (start now later : ℕ) (key_id region : String)
    (fingerprint : Option String) (sessions : Sessions)
    → IsFaithful store
    → now ≤ start + store.ttl_seconds * second
    → let s = new_session store token start key_id region fingerprint in
      let sessions' = (create store token start key_id region fingerprint sessions).1 in
      (get store now later s.session_id sessions').0
      ≡ ok (some (info_of (record s { last_used = later }) []))
unfolding create new_session
get-create store token start now later key_id region fingerprint sessions h live =
    let s = new_session store token start key_id region fingerprint in
    let found = lookup-insert_self s.session_id s sessions in
    rw (
      get-live store now later s.session_id s (insert s.session_id s sessions) [] found live
        (load-store_cookies store [] h))

-- Later than its lifetime after its creation a session is not found, and the attempt removes it.
pub get-create_expired :
    (store : Store) (token : String) (start now later : ℕ) (key_id region : String)
    (fingerprint : Option String) (sessions : Sessions)
    → start + store.ttl_seconds * second < now
    → let s = new_session store token start key_id region fingerprint in
      let sessions' = (create store token start key_id region fingerprint sessions).1 in
      let (result, after) = get store now later s.session_id sessions' in
      (result ≡ ok none) × (lookup s.session_id after ≡ none)
unfolding create new_session
get-create_expired store token start now later key_id region fingerprint sessions old =
    let s = new_session store token start key_id region fingerprint in
    let found = lookup-insert_self s.session_id s sessions in
    rw (get-expired store now later s.session_id s (insert s.session_id s sessions) found old) (
      refl,
      ground (arith, lookup-erase s.session_id s.session_id (insert s.session_id s sessions)),
    )

update_cookies-some :
    (store : Store) (t : ℕ) (id : String) (s : Session) (c : Cookies) (sessions : Sessions)
    → lookup id sessions ≡ some s
    → update_cookies store t id c sessions
      ≡ insert id (record s { cookies = store_cookies store c; last_used = t }) sessions
unfolding update_cookies
update_cookies-some store t id s c sessions found = ground arith

increment_count-some :
    (t : ℕ) (id : String) (s : Session) (sessions : Sessions)
    → lookup id sessions ≡ some s
    → increment_count t id sessions
      ≡ insert id (record s { request_count = s.request_count + 1; last_used = t }) sessions
unfolding increment_count
increment_count-some t id s sessions found = ground arith

pub get-absent :
    (store : Store) (now later : ℕ) (id : String) (sessions : Sessions)
    → lookup id sessions ≡ none
    → get store now later id sessions ≡ (ok none, sessions)
unfolding get
get-absent store now later id sessions gone = ground arith

pub lookup-delete : (id : String) (sessions : Sessions) → lookup id (delete id sessions) ≡ none
unfolding delete
lookup-delete id sessions = ground (arith, lookup-erase id id sessions)

-- Within its lifetime a session shows the cookies that were last stored, and one request more for
-- each count; another session is as it was. A deleted session is not found.
pub get-update_cookies :
    (store : Store) (t u now later : ℕ) (id other : String) (s : Session) (c : Cookies)
    (sessions : Sessions)
    → IsFaithful store
    → lookup id sessions ≡ some s
    → now ≤ s.expires_at
    → other ≢ id
    → let sessions' = increment_count u id (update_cookies store t id c sessions) in
      let s' = record s {
        cookies = store_cookies store c;
        request_count = s.request_count + 1;
        last_used = later;
      } in
      ((get store now later id sessions').0 ≡ ok (some (info_of s' c)))
      × (lookup other sessions' ≡ lookup other sessions)
      × (get store now later id (delete id sessions') ≡ (ok none, delete id sessions'))
unfolding delete
get-update_cookies store t u now later id other s c sessions h found live ne =
    let s1 = record s { cookies = store_cookies store c; last_used = t } in
    let s2 = record s1 { request_count = s.request_count + 1; last_used = u } in
    let one = insert id s1 sessions in
    let two = insert id s2 one in
    let at1 = lookup-insert_self id s1 sessions in
    let at2 = lookup-insert_self id s2 one in
    let both : increment_count u id (update_cookies store t id c sessions) ≡ two =
      rw (update_cookies-some store t id s c sessions found)
        (increment_count-some u id s1 one at1) in
    rw both (
      rw (get-live store now later id s2 two c at2 live (load-store_cookies store c h)),
      rw (lookup-insert_ne other id s2 one ne) (lookup-insert_ne other id s1 sessions ne),
      get-absent store now later id (erase id two) (ground (arith, lookup-erase id id two)),
    )
