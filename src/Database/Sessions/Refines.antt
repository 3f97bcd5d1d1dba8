-- ===== src/Database/Sessions/Refines.antt =====
-- The store in Postgres keeps the promise of a session store.
use asb_cloud_api.Base.{
  ◌≡◌, refl, ◌≢◌, ap, inl, inr, ℕ, ◌+◌, String, ◌<>◌, Option, none, some, List, [], ◌∷◌, ◌++◌,
  arith, true, false, ltb, is_some, Bool-cases, ◌==◌, string_eq, if◌then◌else◌,
}
use asb_cloud_api.Http.{ok}
use asb_cloud_api.Sessions.{Cookies, Store}
use asb_cloud_api.Sessions.Expiry.{IsFaithful}
use asb_cloud_api.Sessions.Spec.{
  Entry, entry_of, Action, create_session, get_session, set_cookies, count_request, delete_session,
  Call, perform, run, Spec, set, on, new_entry, shown, promise, promises, no_entries, found_answer,
  created_answer,
}
use asb_cloud_api.Database.Sessions.{
  Row, Rows, encrypt, row_cookies, row_region, info_of_row, update_row, find_session, new_row,
  create, get, update_cookies, increment_count, delete,
}
use asb_cloud_api.Database.Sessions.Rows.{
  IsVisible, find_session-update_row, find_session-update_some, find_session-new, create-absent,
  get-absent, get-hidden, get-current, row_cookies-encrypt,
}
use asb_cloud_api.Database.Sessions.Fresh.{
  postgres_store, next_used, IsAdmissible, IsFresh, IsUnused, perform-IsUnused,
}

module _ (store : Store) where
  -- What is stored and what is promised for one id.
  abbrev Agrees : Option Row → Option Entry → Type 0
  Agrees none none = Unit
  Agrees none (some e) = ⊥
  Agrees (some row) none = is_some row.deleted_at ≡ true
  Agrees (some row) (some e) =
      (is_some row.deleted_at ≡ false) × (entry_of (info_of_row store row) ≡ e)

  abbrev Refines : Rows → Spec → Type 0
  Refines rows spec = (id : String) → Agrees (find_session id rows) (spec id)

  -- A change at one id.
  Refines-set :
      (id : String) (o : Option Row) (p : Option Entry) (rows rows' : Rows) (spec : Spec)
      → Refines rows spec
      → ((j : String) → find_session j rows' ≡ (if j == id then o else find_session j rows))
      → Agrees o p
      → Refines rows' (set id p spec)
  Refines-set id o p rows rows' spec h at agrees j =
      rw (at j) (elim (Bool-cases (j == id)) [ inl same ↦ rw same agrees | inr ne ↦ rw ne (h j) ])

  -- A change at one id that the promise does not see.
  Refines-keep :
      (id : String) (o : Option Row) (rows rows' : Rows) (spec : Spec)
      → Refines rows spec
      → ((j : String) → find_session j rows' ≡ (if j == id then o else find_session j rows))
      → Agrees o (spec id)
      → Refines rows' spec
  Refines-keep id o rows rows' spec h at agrees j = elim (Bool-cases (j == id)) [
    | inl same ↦ let e : j ≡ id = ground arith in rw (at j) (rw same (rw (ap spec e) agrees))
    | inr ne ↦ rw (at j) (rw ne (h j))
  ]

  Agrees-change :
      (f : Row → Row) (g : Option Entry → Option Entry) (o : Option Row) (p : Option Entry)
      → Agrees o p
      → g none ≡ none
      → ((row : Row) (p : Option Entry) → Agrees (some row) p → Agrees (some (f row)) (g p))
      → Agrees (elim o [ none ↦ none | some row ↦ some (f row) ]) (g p)
  Agrees-change f g none none h stays keeps = rw stays tt
  Agrees-change f g none (some e) h stays keeps = elim h [ ]
  Agrees-change f g (some row) p h stays keeps = keeps row p h

  on-some :
      (f : Row → Row) (g : Entry → Entry) (row : Row) (p : Option Entry)
      → Agrees (some row) p
      → (f row).deleted_at ≡ row.deleted_at
      → ((e : Entry)
          → entry_of (info_of_row store row) ≡ e
          → entry_of (info_of_row store (f row)) ≡ g e)
      → Agrees (some (f row)) (on g p)
  on-some f g row none a kept shows = rw kept a
  on-some f g row (some e) a kept shows = (rw kept a.0, shows e a.1)

  Refines-change :
      (id : String) (f : Row → Row) (g : Option Entry → Option Entry) (rows : Rows) (spec : Spec)
      → Refines rows spec
      → g none ≡ none
      → ((row : Row) → (f row).session_id ≡ row.session_id)
      → ((row : Row) (p : Option Entry) → Agrees (some row) p → Agrees (some (f row)) (g p))
      → Refines (update_row id f rows) (set id (g (spec id)) spec)
  Refines-change id f g rows spec h stays ids keeps =
      Refines-set id (elim (find_session id rows) [ none ↦ none | some row ↦ some (f row) ])
        (g (spec id)) rows (update_row id f rows) spec h
        (λ j. find_session-update_row j id f rows ids)
        (Agrees-change f g (find_session id rows) (spec id) (h id) stays keeps)

  module _ (faithful : IsFaithful store) (visible : IsVisible store) (t later : ℕ) (rows : Rows)
      (spec : Spec) (h : Refines rows spec) where
    keeps-update_cookies :
        (id : String) (c : Cookies)
        → Refines
            (update_cookies store later id c rows)
            (set id (on (λ e. record e { cookies = c }) (spec id)) spec)
    unfolding update_cookies
    keeps-update_cookies id c =
        let enc = encrypt store.fernet (store.json.dumps c) in
        let read = row_cookies-encrypt store c faithful visible in
        let f : Row → Row = λ row. record row { cookies_enc = some enc; last_used = later } in
        Refines-change id f (on λ e. record e { cookies = c }) rows spec h refl (λ row. refl)
          λ row p a.
            on-some f (λ e. record e { cookies = c }) row p a refl
              (λ e same. rw read (ap {A = Entry} (λ x. record x { cookies = c }) same))

    keeps-increment_count :
        (id : String)
        → Refines
            (increment_count later id rows)
            (set id (on (λ e. record e { request_count = e.request_count + 1 }) (spec id)) spec)
    unfolding increment_count
    keeps-increment_count id =
        let f : Row → Row =
          λ row. record row { request_count = row.request_count + 1; last_used = later } in
        let g : Entry → Entry = λ e. record e { request_count = e.request_count + 1 } in
        Refines-change id f (on g) rows spec h refl (λ row. refl)
          λ row p a. on-some f g row p a refl λ e same. ap g same

    keeps-delete : (id : String) → Refines (delete later id rows) (set id none spec)
    unfolding delete
    keeps-delete id =
        Refines-change id (λ row. record row { deleted_at = some later }) (λ _. none) rows spec h
          refl (λ row. refl) (λ row p a. refl)

    keeps-create :
        (token key_id region : String) (fingerprint : Option String)
        → find_session ("sess_" <> token) rows ≡ none
        → region ≢ ""
        → let (result, rows') = create store token t later key_id region fingerprint rows in
          let id = "sess_" <> token in
          let entry = new_entry store.ttl_seconds t id key_id region fingerprint in
          (created_answer result ≡ ok (some entry)) × Refines rows' (set id (some entry) spec)
    unfolding row_region row_cookies
    keeps-create token key_id region fingerprint gone named =
        let id = "sess_" <> token in
        let entry = new_entry store.ttl_seconds t id key_id region fingerprint in
        let row = new_row store t later id key_id region fingerprint in
        rw (create-absent store token t later key_id region fingerprint rows gone) (
          refl,
          Refines-set id (some row) (some entry) rows (rows ++ (row ∷ [])) spec h
              (λ j. find_session-new j row rows gone) (refl, ground (arith, named)),
        )

    keeps-get_at :
        (id : String) (o : Option Row) (p : Option Entry)
        → find_session id rows ≡ o
        → spec id ≡ p
        → Agrees o p
        → let (found, rows') = get store t later id rows in
          (found_answer (ok found)
            ≡ ok (shown store.ttl_seconds (λ now exp. ltb now exp) t (spec id)))
          × Refines rows' spec
    keeps-get_at id none none gone e a = rw (get-absent store t later id rows gone) (rw e refl, h)
    keeps-get_at id none (some entry) gone e a = elim a [ ]
    keeps-get_at id (some row) none found e a =
        rw (get-hidden store t later id row rows found (ground (arith, a))) (rw e refl, h)
    keeps-get_at id (some row) (some entry) found e a =
        let dates : row.expires_at ≡ entry.expires_at = ap (λ (x : Entry). x.expires_at) a.1 in
        let touch : Row → Row = λ row'. record row' { last_used = later } in
        elim (Bool-cases (ltb t row.expires_at)) [
          | inl live ↦ rw (get-current store t later id row rows found (ground (arith, a.0))) (
            ground (arith, e, a.1, dates),
            Refines-keep id (some (touch row)) rows (update_row id touch rows) spec h
                (λ j. find_session-update_some j id touch row rows found (λ _. refl)) (rw e a),
          )
          | inr old ↦
              rw (get-hidden store t later id row rows found (ground arith))
                (ground (arith, e, dates), h)
        ]

    keeps-get :
        (id : String)
        → let (found, rows') = get store t later id rows in
          (found_answer (ok found)
            ≡ ok (shown store.ttl_seconds (λ now exp. ltb now exp) t (spec id)))
          × Refines rows' spec
    keeps-get id = keeps-get_at id (find_session id rows) (spec id) refl refl (h id)

    keeps-action :
        (action : Action) (used : List String)
        → IsUnused used rows
        → IsAdmissible used action
        → let (answer, rows') = perform (postgres_store store) t later action rows in
          let (answer', spec') = promise store.ttl_seconds (λ now exp. ltb now exp) t action spec in
          (answer ≡ answer') × Refines rows' spec'
    unfolding perform promise postgres_store
    keeps-action (create_session token key_id region fingerprint) used unused fresh =
        keeps-create token key_id region fingerprint (unused ("sess_" <> token) fresh.0) fresh.1
    keeps-action (get_session id) used unused fresh = keeps-get id
    keeps-action (set_cookies id c) used unused fresh = (refl, keeps-update_cookies id c)
    keeps-action (count_request id) used unused fresh = (refl, keeps-increment_count id)
    keeps-action (delete_session id) used unused fresh = (refl, keeps-delete id)

  run-promises_from :
      (faithful : IsFaithful store) (visible : IsVisible store) (used : List String)
      (calls : List Call) (rows : Rows) (spec : Spec)
      → Refines rows spec
      → IsUnused used rows
      → IsFresh used calls
      → run (postgres_store store) calls rows
        ≡ promises store.ttl_seconds (λ now exp. ltb now exp) calls spec
  unfolding run promises
  run-promises_from faithful visible used [] rows spec h unused fresh = refl
  run-promises_from faithful visible used (call ∷ calls) rows spec h unused fresh =
      let (same, after) =
        keeps-action faithful visible call.at call.later rows spec h call.action used unused
          fresh.0 in
      let rest =
        run-promises_from faithful visible (next_used used call.action) calls
          (perform (postgres_store store) call.at call.later call.action rows).1
          (promise store.ttl_seconds (λ now exp. ltb now exp) call.at call.action spec).1 after
          (perform-IsUnused store call.at call.later call.action used rows unused fresh.0)
          fresh.1 in
      cc

-- Where new sessions have new ids and a region, the store in Postgres answers any sequence of calls
-- from its start as the promise says, where a session is given out only before the instant it
-- expires.
pub run_postgres-promises :
    (store : Store) (calls : List Call)
    → IsFaithful store
    → IsVisible store
    → IsFresh [] calls
    → run (postgres_store store) calls []
      ≡ promises store.ttl_seconds (λ now exp. ltb now exp) calls no_entries
run_postgres-promises store calls faithful visible fresh =
    run-promises_from store faithful visible [] calls [] no_entries (λ _. tt) (λ _ _. refl) fresh
