-- ===== src/Database/Sessions.antt =====
-- Sessions in Postgres: asb_api/db/session_store.py. `cookies_enc` is a text in place of its UTF-8
-- bytes, and the clock of the server is an argument of each statement that reads it.
pub mod Rows
pub mod Fresh
pub mod Refines
use asb_cloud_api.Base.{
  ℕ, ◌+◌, ◌*◌, String, ◌<>◌, Option, none, some, List, [], ◌∷◌, ◌++◌, Bool, not, ◌==◌, ◌&&◌, ltb,
  is_some, string_eq, if◌then◌else◌,
}
use asb_cloud_api.Http.{Result, ok, err, other_error}
use asb_cloud_api.RateLimit.{second}
use asb_cloud_api.Sessions.{Cookies, Fernet, SessionInfo, Store}

-- A row of `sessions`; the columns that the table declares NOT NULL have a value.
pub record Row : Type 0 where
  pub session_id : String
  pub key_id : String
  pub region : Option String
  pub fingerprint : Option String
  pub cookies_enc : Option String
  pub created_at : ℕ
  pub last_used : ℕ
  pub request_count : ℕ
  pub expires_at : ℕ
  pub deleted_at : Option ℕ

abbrev pub Rows : Type 0
Rows = List Row

unfoldable pub encrypt : Option Fernet → String → String
encrypt none text = text
encrypt (some f) text = f.encrypt text

unfoldable pub decrypt : Option Fernet → String → Option String
decrypt none text = some text
decrypt (some f) text = f.decrypt text

-- The cookies of a row; whatever fails leaves none.
unfoldable pub row_cookies : Store → Option String → Cookies
row_cookies store none = []
row_cookies store (some enc) =
    let loaded : Cookies = elim (decrypt store.fernet enc) [
      | none ↦ []
      | some text ↦ elim (store.json.loads text) [ none ↦ [] | some cookies ↦ cookies ]
    ] in
    if enc == "" then [] else loaded

-- `row["region"] or "jp"`
unfoldable pub row_region : Option String → String
row_region none = "jp"
row_region (some region) = if region == "" then "jp" else region

abbrev pub info_of_row : Store → Row → SessionInfo
info_of_row store row = record {
  session_id = row.session_id;
  key_id = row.key_id;
  region = row_region row.region;
  fingerprint = row.fingerprint;
  cookies = row_cookies store row.cookies_enc;
  created_at = row.created_at;
  last_used = row.last_used;
  request_count = row.request_count;
  expires_at = row.expires_at;
}

-- `UPDATE sessions SET ... WHERE session_id = $1`
abbrev pub update_row : String → (Row → Row) → Rows → Rows
update_row session_id f [] = []
update_row session_id f (row ∷ rows) =
    (if row.session_id == session_id then f row else row) ∷ update_row session_id f rows

-- The row of a primary key.
abbrev pub find_session : String → Rows → Option Row
find_session session_id [] = none
find_session session_id (row ∷ rows) =
    let rest = find_session session_id rows in
    if row.session_id == session_id then some row else rest

-- `now` is the clock of the caller, `db_now` the clock of the server.
abbrev pub new_row : Store → ℕ → ℕ → String → String → String → Option String → Row
new_row store now db_now session_id key_id region fingerprint = record {
  session_id = session_id;
  key_id = key_id;
  region = some region;
  fingerprint = fingerprint;
  cookies_enc = none;
  created_at = db_now;
  last_used = db_now;
  request_count = 0;
  expires_at = now + store.ttl_seconds * second;
  deleted_at = none;
}

abbrev pub new_info : Store → ℕ → String → String → String → Option String → SessionInfo
new_info store now session_id key_id region fingerprint = record {
  session_id = session_id;
  key_id = key_id;
  region = region;
  fingerprint = fingerprint;
  cookies = [];
  created_at = now;
  last_used = now;
  request_count = 0;
  expires_at = now + store.ttl_seconds * second;
}

-- `token` is `uuid.uuid4().hex[:12]`. A primary key that is there is an error.
pub create :
    Store → String → ℕ → ℕ → String → String → Option String → Rows → Result SessionInfo × Rows
create store token now db_now key_id region fingerprint rows =
    let session_id = "sess_" <> token in
    elim (find_session session_id rows) [
      | some _ ↦ (err (other_error "UniqueViolationError"), rows)
      | none ↦ (
        ok (new_info store now session_id key_id region fingerprint),
        rows ++ (new_row store now db_now session_id key_id region fingerprint ∷ []),
      )
    ]

-- `deleted_at IS NULL AND expires_at > $2`
abbrev pub is_current : ℕ → Row → Bool
is_current now row = not (is_some row.deleted_at) && ltb now row.expires_at

-- The caller gets the row as it was read, the table the time of the read.
pub get : Store → ℕ → ℕ → String → Rows → Option SessionInfo × Rows
get store now db_now session_id rows = elim (find_session session_id rows) [
  | none ↦ (none, rows)
  | some row ↦
      if is_current now row
      then (
        some (info_of_row store row),
        update_row session_id (λ row'. record row' { last_used = db_now }) rows,
      )
      else (none, rows)
]

pub update_cookies : Store → ℕ → String → Cookies → Rows → Rows
update_cookies store db_now session_id cookies =
    let enc = encrypt store.fernet (store.json.dumps cookies) in
    update_row session_id λ row. record row { cookies_enc = some enc; last_used = db_now }

pub increment_count : ℕ → String → Rows → Rows
increment_count db_now session_id =
    update_row session_id
      λ row. record row { request_count = row.request_count + 1; last_used = db_now }

pub delete : ℕ → String → Rows → Rows
delete db_now session_id = update_row session_id λ row. record row { deleted_at = some db_now }
