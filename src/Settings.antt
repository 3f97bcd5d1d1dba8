-- ===== src/Settings.antt =====
-- The configuration: asb_api/config.py, after the parse of the file. Texts are lists of code points;
-- the environment is a parameter.
pub mod Variables
use asb_cloud_api.Base.{ℕ, Option, none, some, List, [], ◌∷◌, ◌++◌, ◌==◌, nat_eq, if◌then◌else◌}

-- `os.environ.get`
abbrev pub Environment : Type 0
Environment = List ℕ → Option (List ℕ)

-- How far the scan of `_ENV_VAR_RE` is in a text: outside of a variable, after `$`, in the name, or
-- in the default after the name and its colon.
pub data Scan : Type 0 where
  outside : Scan
  dollar : Scan
  in_name : List ℕ → Scan
  in_default : List ℕ → List ℕ → Scan

-- `:` and `:-` both begin a default.
abbrev pub without_dash : List ℕ → List ℕ
without_dash [] = []
without_dash (c ∷ s) = if c == b'-' then s else c ∷ s

-- `_replace`
abbrev pub value_of : Environment → List ℕ → List ℕ → List ℕ
value_of env name default = elim (env name) [ some value ↦ value | none ↦ default ]

-- What a match that does not come to its end leaves in the text.
abbrev pub pending : Scan → List ℕ
pending outside = []
pending dollar = b'$' ∷ []
pending (in_name name) = b'$' ∷ b'{' ∷ name
pending (in_default name default) = b'$' ∷ b'{' ∷ (name ++ (b':' ∷ default))

-- `_ENV_VAR_RE.sub(_replace, value)`, one character at a time. A name is not empty and has neither
-- `}` nor `:`, a default has no `}`.
unfoldable pub substitute : Environment → Scan → List ℕ → List ℕ
substitute env scan [] = pending scan
substitute env outside (c ∷ s) =
    let copied = c ∷ substitute env outside s in
    let opened = substitute env dollar s in if c == b'$' then opened else copied
substitute env dollar (c ∷ s) =
    let copied = b'$' ∷ c ∷ substitute env outside s in
    let again = b'$' ∷ substitute env dollar s in
    let named = substitute env (in_name []) s in
    if c == b'{' then named else (if c == b'$' then again else copied)
substitute env (in_name []) (c ∷ s) =
    let copied = b'$' ∷ b'{' ∷ c ∷ substitute env outside s in
    let more = substitute env (in_name (c ∷ [])) s in
    if c == b'}' then copied else (if c == b':' then copied else more)
substitute env (in_name (n ∷ name)) (c ∷ s) =
    let replaced = value_of env (n ∷ name) [] ++ substitute env outside s in
    let default = substitute env (in_default (n ∷ name) []) s in
    let more = substitute env (in_name (n ∷ (name ++ (c ∷ [])))) s in
    if c == b'}' then replaced else (if c == b':' then default else more)
substitute env (in_default name default) (c ∷ s) =
    let replaced = value_of env name (without_dash default) ++ substitute env outside s in
    let more = substitute env (in_default name (default ++ (c ∷ []))) s in
    if c == b'}' then replaced else more

-- A value of the file; a key that is `None` is `none`.
mutual
  pub data Setting : Type 0 where
    text : List ℕ → Setting
    scalar : ℕ → Setting
    sequence : Settings → Setting
    mapping : Entries → Setting

  pub data Settings : Type 0 where
    nil : Settings
    cons : Setting → Settings → Settings

  pub data Entries : Type 0 where
    empty : Entries
    entry : Option (List ℕ) → Setting → Entries → Entries

-- `_resolve_env`
unfoldable mutual
  pub resolve_env : Environment → Setting → Setting
  resolve_env env (text s) = text (substitute env outside s)
  resolve_env env (scalar n) = scalar n
  resolve_env env (sequence xs) = sequence (resolve_all env xs)
  resolve_env env (mapping es) = mapping (resolve_entries env es)

  pub resolve_all : Environment → Settings → Settings
  resolve_all env nil = nil
  resolve_all env (cons x xs) = cons (resolve_env env x) (resolve_all env xs)

  pub resolve_entries : Environment → Entries → Entries
  resolve_entries env empty = empty
  resolve_entries env (entry k x es) = entry k (resolve_env env x) (resolve_entries env es)

-- The text `null`.
abbrev pub null_key : List ℕ
null_key = b'n' ∷ b'u' ∷ b'l' ∷ b'l' ∷ []

abbrev pub named_key : Option (List ℕ) → Option (List ℕ)
named_key none = some null_key
named_key (some k) = some k

-- `_normalize_none_keys`
unfoldable mutual
  pub normalize_none_keys : Setting → Setting
  normalize_none_keys (text s) = text s
  normalize_none_keys (scalar n) = scalar n
  normalize_none_keys (sequence xs) = sequence (normalize_all xs)
  normalize_none_keys (mapping es) = mapping (normalize_entries es)

  pub normalize_all : Settings → Settings
  normalize_all nil = nil
  normalize_all (cons x xs) = cons (normalize_none_keys x) (normalize_all xs)

  pub normalize_entries : Entries → Entries
  normalize_entries empty = empty
  normalize_entries (entry k x es) =
      entry (named_key k) (normalize_none_keys x) (normalize_entries es)

-- `load_config`, from what `yaml.safe_load` gives.
unfoldable pub load_config : Environment → Setting → Setting
load_config env raw = resolve_env env (normalize_none_keys raw)
