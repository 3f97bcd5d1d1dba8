-- ===== src/Sessions/Spec.antt =====
-- What a session store promises, whatever holds the sessions: the operations of
-- asb_api/session/store.py, which asb_api/db/session_store.py has too, on a function from ids to
-- entries. `created_at` and `last_used` are no part of it.
pub mod Memory
use asb_cloud_api.Base.{
  ℕ, ◌+◌, ◌*◌, ◌≤◌, String, ◌<>◌, Option, none, some, List, [], ◌∷◌, Bool, ◌==◌, string_eq,
  if◌then◌else◌,
}
use asb_cloud_api.Http.{Result, ok, err}
use asb_cloud_api.RateLimit.{second}
use asb_cloud_api.Sessions.{Cookies, SessionInfo}

-- What a caller relies on of a session.
pub record Entry : Type 0 where
  pub session_id : String
  pub key_id : String
  pub region : String
  pub fingerprint : Option String
  pub cookies : Cookies
  pub request_count : ℕ
  pub expires_at : ℕ

abbrev pub entry_of : SessionInfo → Entry
entry_of s = record {
  session_id = s.session_id;
  key_id = s.key_id;
  region = s.region;
  fingerprint = s.fingerprint;
  cookies = s.cookies;
  request_count = s.request_count;
  expires_at = s.expires_at;
}

pub data Action : Type 0 where
  create_session : String → String → String → Option String → Action
  get_session : String → Action
  set_cookies : String → Cookies → Action
  count_request : String → Action
  delete_session : String → Action

-- One call: the clock at its test, and at its update.
pub record Call : Type 0 where
  pub at : ℕ
  pub later : ℕ
  pub action : Action

-- The operations of a store with states `S`, their times first.
pub record SessionStore (S : Type 0) : Type 0 where
  pub create : ℕ → ℕ → String → String → String → Option String → S → Result SessionInfo × S
  pub get : ℕ → ℕ → String → S → Result (Option SessionInfo) × S
  pub update_cookies : ℕ → String → Cookies → S → S
  pub increment_count : ℕ → String → S → S
  pub delete : ℕ → String → S → S

abbrev pub Answer : Type 0
Answer = Result (Option Entry)

abbrev pub created_answer : Result SessionInfo → Answer
created_answer (ok s) = ok (some (entry_of s))
created_answer (err e) = err e

abbrev pub found_answer : Result (Option SessionInfo) → Answer
found_answer (ok none) = ok none
found_answer (ok (some s)) = ok (some (entry_of s))
found_answer (err e) = err e

module _ {S : Type 0} (store : SessionStore S) where
  unfoldable pub perform : ℕ → ℕ → Action → S → Answer × S
  perform at later (create_session token key_id region fingerprint) s =
      let (result, s') = store.create at later token key_id region fingerprint s in
      (created_answer result, s')
  perform at later (get_session id) s =
      let (result, s') = store.get at later id s in (found_answer result, s')
  perform at later (set_cookies id cookies) s = (ok none, store.update_cookies later id cookies s)
  perform at later (count_request id) s = (ok none, store.increment_count later id s)
  perform at later (delete_session id) s = (ok none, store.delete later id s)

  -- The answers to a sequence of calls.
  unfoldable pub run : List Call → S → List Answer
  run [] s = []
  run (call ∷ calls) s =
      let (answer, s') = perform call.at call.later call.action s in answer ∷ run calls s'

abbrev pub Spec : Type 0
Spec = String → Option Entry

abbrev pub set : String → Option Entry → Spec → Spec
set id o spec = λ k. if k == id then o else spec k

abbrev pub on : (Entry → Entry) → Option Entry → Option Entry
on f none = none
on f (some e) = some (f e)

abbrev pub new_entry : ℕ → ℕ → String → String → String → Option String → Entry
new_entry ttl_seconds now session_id key_id region fingerprint = record {
  session_id = session_id;
  key_id = key_id;
  region = region;
  fingerprint = fingerprint;
  cookies = [];
  request_count = 0;
  expires_at = now + ttl_seconds * second;
}

-- `live now expires_at` says whether a session is still given out.
module _ (ttl_seconds : ℕ) (live : ℕ → ℕ → Bool) where
  abbrev pub shown : ℕ → Option Entry → Option Entry
  shown now none = none
  shown now (some e) = if live now e.expires_at then some e else none

  unfoldable pub promise : ℕ → Action → Spec → Answer × Spec
  promise at (create_session token key_id region fingerprint) spec =
      let id = "sess_" <> token in
      let entry = new_entry ttl_seconds at id key_id region fingerprint in
      (ok (some entry), set id (some entry) spec)
  promise at (get_session id) spec = (ok (shown at (spec id)), spec)
  promise at (set_cookies id cookies) spec =
      (ok none, set id (on (λ e. record e { cookies = cookies }) (spec id)) spec)
  promise at (count_request id) spec =
      (ok none, set id (on (λ e. record e { request_count = e.request_count + 1 }) (spec id)) spec)
  promise at (delete_session id) spec = (ok none, set id none spec)

  unfoldable pub promises : List Call → Spec → List Answer
  promises [] spec = []
  promises (call ∷ calls) spec =
      let (answer, spec') = promise call.at call.action spec in answer ∷ promises calls spec'

abbrev pub no_entries : Spec
no_entries _ = none

-- The clock does not go back between the tests.
abbrev pub IsOrdered : ℕ → List Call → Type 0
IsOrdered now [] = Unit
IsOrdered now (call ∷ calls) = (now ≤ call.at) × IsOrdered call.at calls
