-- ===== src/Sessions/Spec/Memory.antt =====
-- The store in memory keeps the promise of a session store.
use asb_cloud_api.Base.{
  ◌≡◌, refl, ap, inl, inr, ℕ, ◌+◌, ◌≤◌, ◌<◌, String, ◌<>◌, Option, none, some, List, [], ◌∷◌, arith,
  leb, ltb, Bool-cases, Option-cases, ◌==◌, string_eq, if◌then◌else◌,
}
use asb_cloud_api.Base.Dict.{lookup, insert, erase, lookup-insert, lookup-erase}
use asb_cloud_api.Http.{ok}
use asb_cloud_api.Sessions.{
  Cookies, Session, Sessions, Store, store_cookies, load_cookies, info_of, session_info_from_record,
  new_session, create, get, update_cookies, increment_count, delete, change,
}
use asb_cloud_api.Sessions.Expiry.{
  IsFaithful, load-store_cookies, get-absent, get-expired, get-live,
}
use asb_cloud_api.Sessions.Spec.{
  Entry, entry_of, Action, create_session, get_session, set_cookies, count_request, delete_session,
  Call, SessionStore, perform, run, Spec, set, on, new_entry, shown, promise, promises, no_entries,
  IsOrdered, found_answer, created_answer,
}

unfoldable pub memory_store : Store → SessionStore Sessions
memory_store store = record {
  create =
      λ now _ token key_id region fingerprint. create store token now key_id region fingerprint;
  get = get store;
  update_cookies = update_cookies store;
  increment_count = increment_count;
  delete = λ _. delete;
}

module _ (store : Store) where
  -- What is held and what is promised for one id. A session that was dropped has expired.
  abbrev Agrees : ℕ → Option Session → Option Entry → Type 0
  Agrees now none none = Unit
  Agrees now none (some e) = e.expires_at < now
  Agrees now (some s) none = ⊥
  Agrees now (some s) (some e) =
      (load_cookies store s.cookies ≡ ok e.cookies) × (entry_of (info_of s e.cookies) ≡ e)

  abbrev Refines : ℕ → Sessions → Spec → Type 0
  Refines now sessions spec = (id : String) → Agrees now (lookup id sessions) (spec id)

  Agrees-mono :
      (now t : ℕ) (o : Option Session) (p : Option Entry) → now ≤ t → Agrees now o p → Agrees t o p
  Agrees-mono now t none none le h = tt
  Agrees-mono now t none (some e) le h = omega arith
  Agrees-mono now t (some s) none le h = h
  Agrees-mono now t (some s) (some e) le h = h

  -- A change at one id.
  Refines-set :
      (t : ℕ) (id : String) (o : Option Session) (p : Option Entry) (sessions sessions' : Sessions)
      (spec : Spec)
      → Refines t sessions spec
      → ((j : String) → lookup j sessions' ≡ (if j == id then o else lookup j sessions))
      → Agrees t o p
      → Refines t sessions' (set id p spec)
  Refines-set t id o p sessions sessions' spec h at agrees j =
      rw (at j) (elim (Bool-cases (j == id)) [ inl same ↦ rw same agrees | inr ne ↦ rw ne (h j) ])

  Keeps : ℕ → Sessions → Spec → ℕ → Action → Type 0
  Keeps t sessions spec later action =
      let (answer, sessions') = perform (memory_store store) t later action sessions in
      let (answer', spec') = promise store.ttl_seconds (λ now exp. leb now exp) t action spec in
      (answer ≡ answer') × Refines t sessions' spec'

  -- A change at one id that the promise does not see.
  Refines-keep :
      (t : ℕ) (id : String) (o : Option Session) (sessions sessions' : Sessions) (spec : Spec)
      → Refines t sessions spec
      → ((j : String) → lookup j sessions' ≡ (if j == id then o else lookup j sessions))
      → Agrees t o (spec id)
      → Refines t sessions' spec
  Refines-keep t id o sessions sessions' spec h at agrees j = elim (Bool-cases (j == id)) [
    | inl same ↦ let e : j ≡ id = ground arith in rw (at j) (rw same (rw (ap spec e) agrees))
    | inr ne ↦ rw (at j) (rw ne (h j))
  ]

  -- The change of one session that is held.
  Agrees-change :
      (t : ℕ) (f : Session → Session) (g : Entry → Entry) (o : Option Session) (p : Option Entry)
      → Agrees t o p
      → ((s : Session) (e : Entry)
          → Agrees t (some s) (some e)
          → Agrees t (some (f s)) (some (g e)))
      → ((e : Entry) → (g e).expires_at ≡ e.expires_at)
      → Agrees t (elim o [ none ↦ none | some s ↦ some (f s) ]) (on g p)
  Agrees-change t f g none none h keeps dates = tt
  Agrees-change t f g none (some e) h keeps dates = rw (dates e) h
  Agrees-change t f g (some s) none h keeps dates = h
  Agrees-change t f g (some s) (some e) h keeps dates = keeps s e h

  lookup-change :
      (j id : String) (f : Session → Session) (sessions : Sessions)
      → lookup j (change id f sessions) ≡ (
          if j == id
          then elim (lookup id sessions) [ none ↦ none | some s ↦ some (f s) ]
          else lookup j sessions)
  lookup-change j id f sessions = elim (Option-cases (lookup id sessions)) [
    | inl gone ↦ ground (arith, gone)
    | inr (s, e) ↦ ground (arith, lookup-insert j id (f s) sessions)
  ]

  Refines-change :
      (t : ℕ) (id : String) (f : Session → Session) (g : Entry → Entry) (sessions : Sessions)
      (spec : Spec)
      → Refines t sessions spec
      → ((s : Session) (e : Entry)
          → Agrees t (some s) (some e)
          → Agrees t (some (f s)) (some (g e)))
      → ((e : Entry) → (g e).expires_at ≡ e.expires_at)
      → Refines t (change id f sessions) (set id (on g (spec id)) spec)
  Refines-change t id f g sessions spec h keeps dates =
      Refines-set t id (elim (lookup id sessions) [ none ↦ none | some s ↦ some (f s) ])
        (on g (spec id)) sessions (change id f sessions) spec h (λ j. lookup-change j id f sessions)
        (Agrees-change t f g (lookup id sessions) (spec id) (h id) keeps dates)

  module _ (faithful : IsFaithful store) (t later : ℕ) (sessions : Sessions) (spec : Spec)
      (h : Refines t sessions spec) where
    keeps-update_cookies :
        (id : String) (c : Cookies)
        → Refines t
            (update_cookies store later id c sessions)
            (set id (on (λ e. record e { cookies = c }) (spec id)) spec)
    unfolding update_cookies
    keeps-update_cookies id c =
        Refines-change t id (λ s. record s { cookies = store_cookies store c; last_used = later })
          (λ e. record e { cookies = c }) sessions spec h
          (λ s e a. (
            load-store_cookies store c faithful,
            ap {A = Entry} (λ e. record e { cookies = c }) a.1,
          ))
          (λ e. refl)

    keeps-increment_count :
        (id : String)
        → Refines t
            (increment_count later id sessions)
            (set id (on (λ e. record e { request_count = e.request_count + 1 }) (spec id)) spec)
    unfolding increment_count
    keeps-increment_count id =
        Refines-change t id
          (λ s. record s { request_count = s.request_count + 1; last_used = later })
          (λ e. record e { request_count = e.request_count + 1 }) sessions spec h
          (λ s e a.
            (a.0, ap {A = Entry} (λ e. record e { request_count = e.request_count + 1 }) a.1))
          (λ e. refl)

    keeps-delete : (id : String) → Refines t (delete id sessions) (set id none spec)
    unfolding delete
    keeps-delete id =
        Refines-set t id none none sessions (erase id sessions) spec h
          (λ j. lookup-erase j id sessions) tt

    keeps-create :
        (token key_id region : String) (fingerprint : Option String)
        → let (result, sessions') = create store token t key_id region fingerprint sessions in
          let id = "sess_" <> token in
          let entry = new_entry store.ttl_seconds t id key_id region fingerprint in
          (created_answer result ≡ ok (some entry)) × Refines t sessions' (set id (some entry) spec)
    unfolding create new_session session_info_from_record
    keeps-create token key_id region fingerprint =
        let s = new_session store token t key_id region fingerprint in
        let id = "sess_" <> token in
        let loads = load-store_cookies store [] faithful in
        (
          ground (arith, loads),
          Refines-set t id (some s)
              (some (new_entry store.ttl_seconds t id key_id region fingerprint)) sessions
              (insert id s sessions) spec h (λ j. lookup-insert j id s sessions) (loads, refl),
        )

    keeps-get_at :
        (id : String) (o : Option Session) (p : Option Entry)
        → lookup id sessions ≡ o
        → spec id ≡ p
        → Agrees t o p
        → let (result, sessions') = get store t later id sessions in
          (found_answer result ≡ ok (shown store.ttl_seconds (λ now exp. leb now exp) t (spec id)))
          × Refines t sessions' spec
    keeps-get_at id none none gone e a =
        rw (get-absent store t later id sessions gone) (rw e refl, h)
    keeps-get_at id none (some entry) gone e a =
        rw (get-absent store t later id sessions gone) (ground (arith, e), h)
    keeps-get_at id (some s) none found e a = elim a [ ]
    keeps-get_at id (some s) (some entry) found e a =
        let dates : s.expires_at ≡ entry.expires_at = ap (λ (x : Entry). x.expires_at) a.1 in
        let s' = record s { last_used = later } in
        elim (Bool-cases (ltb s.expires_at t)) [
          | inl old ↦ rw (get-expired store t later id s sessions found (ground arith)) (
            ground (arith, e),
            Refines-keep t id none sessions (erase id sessions) spec h
                (λ j. lookup-erase j id sessions) (rw e (ground arith)),
          )
          | inr live ↦
              rw (get-live store t later id s sessions entry.cookies found (ground arith) a.0) (
                ground (arith, e, a.1),
                Refines-keep t id (some s') sessions (insert id s' sessions) spec h
                    (λ j. lookup-insert j id s' sessions) (rw e a),
              )
        ]

    keeps-get :
        (id : String)
        → let (result, sessions') = get store t later id sessions in
          (found_answer result ≡ ok (shown store.ttl_seconds (λ now exp. leb now exp) t (spec id)))
          × Refines t sessions' spec
    keeps-get id = keeps-get_at id (lookup id sessions) (spec id) refl refl (h id)

    keeps-action :
        (action : Action)
        → let (answer, sessions') = perform (memory_store store) t later action sessions in
          let (answer', spec') = promise store.ttl_seconds (λ now exp. leb now exp) t action spec in
          (answer ≡ answer') × Refines t sessions' spec'
    unfolding perform promise memory_store
    keeps-action (create_session token key_id region fingerprint) =
        keeps-create token key_id region fingerprint
    keeps-action (get_session id) = keeps-get id
    keeps-action (set_cookies id c) = (refl, keeps-update_cookies id c)
    keeps-action (count_request id) = (refl, keeps-increment_count id)
    keeps-action (delete_session id) = (refl, keeps-delete id)

  run-promises_from :
      (faithful : IsFaithful store) (now : ℕ) (calls : List Call) (sessions : Sessions)
      (spec : Spec)
      → Refines now sessions spec
      → IsOrdered now calls
      → run (memory_store store) calls sessions
        ≡ promises store.ttl_seconds (λ now exp. leb now exp) calls spec
  unfolding run promises
  run-promises_from faithful now [] sessions spec h ordered = refl
  run-promises_from faithful now (call ∷ calls) sessions spec h ordered =
      let h' : Refines call.at sessions spec =
        λ id. Agrees-mono now call.at (lookup id sessions) (spec id) ordered.0 (h id) in
      let (same, after) = keeps-action faithful call.at call.later sessions spec h' call.action in
      let rest =
        run-promises_from faithful call.at calls
          (perform (memory_store store) call.at call.later call.action sessions).1
          (promise store.ttl_seconds (λ now exp. leb now exp) call.at call.action spec).1 after
          ordered.1 in
      cc

-- With a clock that does not go back, the store in memory answers any sequence of calls from its
-- start as the promise says, where a session is given out up to and with the instant it expires.
pub run_memory-promises :
    (store : Store) (now : ℕ) (calls : List Call)
    → IsFaithful store
    → IsOrdered now calls
    → run (memory_store store) calls []
      ≡ promises store.ttl_seconds (λ now exp. leb now exp) calls no_entries
run_memory-promises store now calls faithful ordered =
    run-promises_from store faithful now calls [] no_entries (λ _. tt) ordered
