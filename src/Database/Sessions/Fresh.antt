-- ===== src/Database/Sessions/Fresh.antt =====
-- The operations in Postgres as a session store, and the ids of its rows.
use asb_cloud_api.Base.{
  ◌≡◌, refl, ◌≢◌, inl, inr, ℕ, ◌+◌, String, ◌<>◌, none, some, List, [], ◌∷◌, arith, false, contains,
  Bool-cases, Option-cases, string_eq,
}
use asb_cloud_api.Http.{ok}
use asb_cloud_api.Sessions.{Store}
use asb_cloud_api.Sessions.Spec.{
  Action, create_session, get_session, set_cookies, count_request, delete_session, Call,
  SessionStore, perform,
}
use asb_cloud_api.Database.Sessions.{
  Row, Rows, encrypt, update_row, find_session, new_row, create, get, is_current, update_cookies,
  increment_count, delete,
}
use asb_cloud_api.Database.Sessions.Rows.{
  find_session-update_row, find_session-new, create-absent, get-absent, get-hidden, get-current,
}

unfoldable pub postgres_store : Store → SessionStore Rows
postgres_store store = record {
  create = λ now db_now token. create store token now db_now;
  get =
      λ now db_now id rows. let (found, rows') = get store now db_now id rows in (ok found, rows');
  update_cookies = update_cookies store;
  increment_count = increment_count;
  delete = delete;
}

-- The ids that are used after an action.
abbrev pub next_used : List String → Action → List String
next_used used (create_session token _ _ _) = ("sess_" <> token) ∷ used
next_used used (get_session _) = used
next_used used (set_cookies _ _) = used
next_used used (count_request _) = used
next_used used (delete_session _) = used

-- The id of a new session is new, and its region is not the empty text.
abbrev pub IsAdmissible : List String → Action → Type 0
IsAdmissible used (create_session token _ region _) =
    (contains used ("sess_" <> token) ≡ false) × (region ≢ "")
IsAdmissible used (get_session _) = Unit
IsAdmissible used (set_cookies _ _) = Unit
IsAdmissible used (count_request _) = Unit
IsAdmissible used (delete_session _) = Unit

abbrev pub IsFresh : List String → List Call → Type 0
IsFresh used [] = Unit
IsFresh used (call ∷ calls) =
    IsAdmissible used call.action × IsFresh (next_used used call.action) calls

-- The ids that were not used have no row.
abbrev pub IsUnused : List String → Rows → Type 0
IsUnused used rows = (id : String) → contains used id ≡ false → find_session id rows ≡ none

update_row-IsUnused :
    (used : List String) (id : String) (f : Row → Row) (rows : Rows)
    → ((row : Row) → (f row).session_id ≡ row.session_id)
    → IsUnused used rows
    → IsUnused used (update_row id f rows)
update_row-IsUnused used id f rows keeps unused j new =
    ground (arith, find_session-update_row j id f rows keeps, unused j new)

get-IsUnused :
    (store : Store) (t later : ℕ) (used : List String) (id : String) (rows : Rows)
    → IsUnused used rows
    → IsUnused used (get store t later id rows).1
get-IsUnused store t later used id rows unused = elim (Option-cases (find_session id rows)) [
  | inl gone ↦ rw (get-absent store t later id rows gone) unused
  | inr (row, found) ↦ elim (Bool-cases (is_current t row)) [
    | inl current ↦ rw (get-current store t later id row rows found current) (
        update_row-IsUnused used id (λ row'. record row' { last_used = later }) rows (λ _. refl)
          unused)
    | inr old ↦ rw (get-hidden store t later id row rows found old) unused
  ]
]

pub perform-IsUnused :
    (store : Store) (t later : ℕ) (action : Action) (used : List String) (rows : Rows)
    → IsUnused used rows
    → IsAdmissible used action
    → IsUnused (next_used used action) (perform (postgres_store store) t later action rows).1
unfolding perform postgres_store update_cookies increment_count delete
perform-IsUnused store t later (create_session token key region fp) used rows unused fresh =
    let gone = unused ("sess_" <> token) fresh.0 in
    let row = new_row store t later ("sess_" <> token) key region fp in
    rw (create-absent store token t later key region fp rows gone)
      (λ j new. ground (arith, find_session-new j row rows gone, unused j))
perform-IsUnused store t later (get_session id) used rows unused fresh =
    get-IsUnused store t later used id rows unused
perform-IsUnused store t later (set_cookies id c) used rows unused fresh =
    let enc = encrypt store.fernet (store.json.dumps c) in
    update_row-IsUnused used id (λ row. record row { cookies_enc = some enc; last_used = later })
      rows (λ _. refl) unused
perform-IsUnused store t later (count_request id) used rows unused fresh =
    update_row-IsUnused used id
      (λ row. record row { request_count = row.request_count + 1; last_used = later }) rows
      (λ _. refl) unused
perform-IsUnused store t later (delete_session id) used rows unused fresh =
    update_row-IsUnused used id (λ row. record row { deleted_at = some later }) rows (λ _. refl)
      unused
