-- ===== src/Database/Sessions/Rows.antt =====
-- The statements on the table `sessions`, row by row.
use asb_cloud_api.Base.{
  ◌≡◌, ◌≢◌, inl, inr, ℕ, String, ◌<>◌, Option, none, some, [], ◌∷◌, ◌++◌, arith, true, false,
  Bool-cases, Option-cases, ◌==◌, string_eq, if◌then◌else◌,
}
use asb_cloud_api.Http.{ok}
use asb_cloud_api.Sessions.{Cookies, Store}
use asb_cloud_api.Sessions.Expiry.{IsFaithful}
use asb_cloud_api.Database.Sessions.{
  Row, Rows, encrypt, decrypt, row_cookies, info_of_row, update_row, find_session, new_row,
  new_info, create, get, is_current,
}

-- What is stored of cookies is never the empty text, which the code takes for no cookies.
abbrev pub IsVisible : Store → Type 0
IsVisible store = (c : Cookies) → encrypt store.fernet (store.json.dumps c) ≢ ""

pub find_session-update_row :
    (j id : String) (f : Row → Row) (rows : Rows)
    → ((row : Row) → (f row).session_id ≡ row.session_id)
    → find_session j (update_row id f rows) ≡ (
        if j == id
        then elim (find_session id rows) [ none ↦ none | some row ↦ some (f row) ]
        else find_session j rows)
find_session-update_row j id f [] keeps = ground arith
find_session-update_row j id f (row ∷ rows) keeps =
    ground (arith, find_session-update_row j id f rows keeps, keeps row)

pub find_session-update_some :
    (j id : String) (f : Row → Row) (row : Row) (rows : Rows)
    → find_session id rows ≡ some row
    → ((row : Row) → (f row).session_id ≡ row.session_id)
    → find_session j (update_row id f rows)
      ≡ (if j == id then some (f row) else find_session j rows)
find_session-update_some j id f row rows found keeps =
    ground (arith, find_session-update_row j id f rows keeps)

find_session-append :
    (j : String) (row : Row) (rows : Rows)
    → find_session j rows ≡ none
    → find_session j (rows ++ (row ∷ [])) ≡ (if row.session_id == j then some row else none)
find_session-append j row [] gone = ground arith
find_session-append j row (x ∷ rows) gone = ground (arith, find_session-append j row rows)

find_session-append_ne :
    (j : String) (row : Row) (rows : Rows)
    → row.session_id ≢ j
    → find_session j (rows ++ (row ∷ [])) ≡ find_session j rows
find_session-append_ne j row [] ne = ground arith
find_session-append_ne j row (x ∷ rows) ne = ground (arith, find_session-append_ne j row rows ne)

pub find_session-new :
    (j : String) (row : Row) (rows : Rows)
    → find_session row.session_id rows ≡ none
    → find_session j (rows ++ (row ∷ []))
      ≡ (if j == row.session_id then some row else find_session j rows)
find_session-new j row rows gone = elim (Bool-cases (j == row.session_id)) [
  | inl same ↦ ground (arith, find_session-append row.session_id row rows gone)
  | inr ne ↦ ground (arith, find_session-append_ne j row rows)
]

pub create-absent :
    (store : Store) (token : String) (now db_now : ℕ) (key_id region : String)
    (fingerprint : Option String) (rows : Rows)
    → find_session ("sess_" <> token) rows ≡ none
    → let id = "sess_" <> token in
      create store token now db_now key_id region fingerprint rows ≡ (
        ok (new_info store now id key_id region fingerprint),
        rows ++ (new_row store now db_now id key_id region fingerprint ∷ []),
      )
unfolding create
create-absent store token now db_now key_id region fingerprint rows gone = ground arith

pub get-absent :
    (store : Store) (now db_now : ℕ) (id : String) (rows : Rows)
    → find_session id rows ≡ none
    → get store now db_now id rows ≡ (none, rows)
unfolding get
get-absent store now db_now id rows gone = ground arith

pub get-hidden :
    (store : Store) (now db_now : ℕ) (id : String) (row : Row) (rows : Rows)
    → find_session id rows ≡ some row
    → is_current now row ≡ false
    → get store now db_now id rows ≡ (none, rows)
unfolding get
get-hidden store now db_now id row rows found old = ground arith

pub get-current :
    (store : Store) (now db_now : ℕ) (id : String) (row : Row) (rows : Rows)
    → find_session id rows ≡ some row
    → is_current now row ≡ true
    → get store now db_now id rows ≡ (
      some (info_of_row store row),
      update_row id (λ row'. record row' { last_used = db_now }) rows,
    )
unfolding get
get-current store now db_now id row rows found current = ground arith

-- Cookies that were written are read.
pub row_cookies-encrypt :
    (store : Store) (c : Cookies)
    → IsFaithful store
    → IsVisible store
    → row_cookies store (some (encrypt store.fernet (store.json.dumps c))) ≡ c
unfolding row_cookies encrypt decrypt
row_cookies-encrypt store c faithful visible = elim (Option-cases store.fernet) [
  | inl clear ↦ ground (arith, clear, visible c, faithful.loads-dumps c)
  | inr (f, e) ↦ ground (
    arith,
    e,
    visible c,
    faithful.decrypt-encrypt f e (store.json.dumps c),
    faithful.loads-dumps c,
  )
]
