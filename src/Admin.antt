-- ===== src/Admin.antt =====
-- The administration command, asb_api/admin.py, over the key store in Postgres. Command lines that
-- argparse refuses do not come this far; `json.dumps` and what the connection raises are parameters.
use asb_cloud_api.Base.{
  ◌≡◌, ◌∙◌, refl, ◌≢◌, ℕ, String, ◌<>◌, Bool, false, Option, none, some, List, [], ◌∷◌, ◌++◌, ◌==◌,
  ◌||◌, any_of, arith, string_eq, if◌then◌else◌,
}
use asb_cloud_api.Http.{Exc, Result, ok, err}
use asb_cloud_api.Accounts.{Account, Table, KeyLine, create, verify, revoke, list_keys}

-- The parsed arguments.
pub data Command : Type 0 where
  list_keys_command : Command
  create_key_command : String → Option String → Command
  revoke_key_command : String → Command

-- How the process ends: with the lines it printed, by `sys.exit`, or by an exception.
pub data Outcome : Type 0 where
  printed : List String → Outcome
  exited : ℕ → Outcome
  raised : Exc → Outcome

-- The random texts of a new key, the digest of the raw one, and the time of the insertion.
pub record NewKey : Type 0 where
  pub raw : String
  pub key_id : String
  pub hash : String
  pub now : ℕ

-- The lines of `create-key`.
abbrev pub created_lines : String → Result Account → Outcome
created_lines raw (err e) = raised e
created_lines raw (ok key) = printed (
    ("Key ID: " <> key.key_id)
    ∷ ("Tier: " <> key.tier)
    ∷ ("Raw key (save this, shown only once): " <> raw)
    ∷ [])

-- The three branches on `args.command`.
unfoldable pub run_command : (List KeyLine → String) → NewKey → Command → Table → Outcome × Table
run_command dumps new list_keys_command t = (printed (dumps (list_keys t) ∷ []), t)
run_command dumps new (create_key_command tier email) t =
    let (key, t') = create new.key_id new.hash new.now tier email none t in
    (created_lines new.raw key, t')
run_command dumps new (revoke_key_command key_id) t =
    (printed (("Key " <> key_id <> " revoked.") ∷ []), revoke key_id t)

-- `_get_store`: without DATABASE_URL the process exits; `connecting` is what `db.connect()` or the
-- migrations raise.
abbrev pub get_store : Option String → Option Exc → Option Outcome
get_store none connecting = some (exited 2)
get_store (some dsn) connecting =
    if dsn == ""
    then some (exited 2)
    else elim connecting [ none ↦ none | some e ↦ some (raised e) ]

-- `async_main` after the parse.
unfoldable pub async_main :
    (List KeyLine → String)
    → NewKey
    → Option String
    → Option Exc
    → Command
    → Table
    → Outcome × Table
async_main dumps new dsn connecting command t = elim (get_store dsn connecting) [
  | some outcome ↦ (outcome, t)
  | none ↦ run_command dumps new command t
]

abbrev is_taken : NewKey → Account → Bool
is_taken new a = a.key_id == new.key_id || a.key_hash == new.hash

verify-append :
    (new : NewKey) (row : Account) (t : Table)
    → any_of (is_taken new) t ≡ false
    → verify new.hash (t ++ (row ∷ [])) ≡ verify new.hash (row ∷ [])
unfolding verify
verify-append new row [] fresh = refl
verify-append new row (a ∷ t) fresh = ground (arith, verify-append new row t)

verify-revoke :
    (key_id : String) (hash : String) (t : Table) → verify hash (revoke key_id t) ≢ some key_id
unfolding verify revoke
verify-revoke key_id hash [] = λ e. absurd (cc e)
verify-revoke key_id hash (a ∷ t) = ground (arith, verify-revoke key_id hash t)

abbrev row_of : NewKey → String → Option String → Account
row_of new tier email = record {
  key_id = new.key_id;
  key_hash = new.hash;
  tier = tier;
  owner_email = email;
  created_at = new.now;
  revoked = false;
  stripe_customer_id = none;
  stripe_subscription_id = none;
  subscription_status = none;
  license_type = none;
  license_key = none;
}

verify-new :
    (new : NewKey) (tier : String) (email : Option String) (t : Table)
    → any_of (is_taken new) t ≡ false
    → verify new.hash (t ++ (row_of new tier email ∷ [])) ≡ some new.key_id
unfolding verify
verify-new new tier email t fresh = verify-append new (row_of new tier email) t fresh ∙ ground arith

async_main-run :
    (dumps : List KeyLine → String) (new : NewKey) (dsn : String) (command : Command) (t : Table)
    → (dsn == "") ≡ false
    → (async_main dumps new (some dsn) none command t).1 ≡ (run_command dumps new command t).1
unfolding async_main
async_main-run dumps new dsn command t located = ground arith

run_command-create :
    (dumps : List KeyLine → String) (new : NewKey) (tier : String) (email : Option String)
    (t : Table)
    → any_of (is_taken new) t ≡ false
    → (run_command dumps new (create_key_command tier email) t).1
      ≡ t ++ (row_of new tier email ∷ [])
unfolding run_command create
run_command-create dumps new tier email t fresh = rw fresh refl

revoked-verify :
    (dumps : List KeyLine → String) (other : NewKey) (key_id hash : String) (t : Table)
    → verify hash (run_command dumps other (revoke_key_command key_id) t).1 ≢ some key_id
unfolding run_command
revoked-verify dumps other key_id hash t = verify-revoke key_id hash t

-- With a database, a key that `create-key` makes is accepted, where its id and its digest are not in
-- use; after `revoke-key` no raw key is accepted as that key.
pub async_main-create_revoke :
    (dumps : List KeyLine → String) (new other : NewKey) (dsn tier : String) (email : Option String)
    (t : Table)
    → (dsn == "") ≡ false
    → any_of (is_taken new) t ≡ false
    → let created = (async_main dumps new (some dsn) none (create_key_command tier email) t).1 in
      let revoked =
        (async_main dumps other (some dsn) none (revoke_key_command new.key_id) created).1 in
      (verify new.hash created ≡ some new.key_id)
      × ((hash : String) → verify hash revoked ≢ some new.key_id)
async_main-create_revoke dumps new other dsn tier email t located fresh =
    rw
      (
        async_main-run dumps new dsn (create_key_command tier email) t located,
        run_command-create dumps new tier email t fresh,
        async_main-run dumps other dsn (revoke_key_command new.key_id)
            (t ++ (row_of new tier email ∷ [])) located,
      )
      (verify-new new tier email t fresh, λ hash. revoked-verify dumps other new.key_id hash _)
