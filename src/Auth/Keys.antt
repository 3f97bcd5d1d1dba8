-- ===== src/Auth/Keys.antt =====
-- Keys that authenticate, and keys that no longer do.
use native.Mathlib.Decide.{ℕ_discrete}
use text.Mathlib.TextLemmas.{append-eq-nil_iff, cons-ne-nil}
use asb_cloud_api.Base.{
  ◌≡◌, refl, ◌≢◌, ℕ, String, true, false, Option, none, some, List, [], ◌∷◌, ◌++◌, arith, ==_refl,
  string_eq, Option-cases, Bool-cases, inl, inr, All,
}
use asb_cloud_api.Base.Dict.{lookup, insert, lookup-insert, NodupKeys, insert-NodupKeys}
use asb_cloud_api.Base.Text.{codes}
use asb_cloud_api.Base.Text.Strip.{IsInk, strip-eq_self, remove_prefix-append}
use asb_cloud_api.Http.{ok}
use asb_cloud_api.Auth.{
  KeyInfo, KeyStore, new_info, accepts, raw_key, key_id_of, find_key, verify, create, get, revoke,
  get_api_key,
}

-- What the store must hold for a hash to be accepted under a name.
abbrev pub Grants : String → String → KeyStore → Type 0
Grants h kid keys =
    (info : KeyInfo) × (lookup kid keys ≡ some info) × (info.revoked ≡ false) × (info.hash ≡ h)

find_key-Grants :
    (h kid : String) (keys : KeyStore)
    → NodupKeys keys
    → find_key h keys ≡ some kid
    → Grants h kid keys
unfolding find_key
find_key-Grants h kid [] u e = cc
find_key-Grants h kid ((j, info) ∷ keys) u e = elim (Bool-cases (accepts h info)) [
  | inl fits ↦ (info, ground arith, ground arith, ground arith)
  | inr other ↦
      let (found, at, live, same) = find_key-Grants h kid keys u.1 (ground arith) in
      (found, ground arith, live, same)
]

find_key_complete :
    (h kid : String) (info : KeyInfo) (keys : KeyStore)
    → lookup kid keys ≡ some info
    → info.revoked ≡ false
    → info.hash ≡ h
    → find_key h keys ≢ none
unfolding find_key
find_key_complete h kid info [] at live same = cc
find_key_complete h kid info ((j, other) ∷ keys) at live same =
    grind (
      arith,
      λ (at' : lookup kid keys ≡ some info). find_key_complete h kid info keys at' live same,
    )

find_key-insert_fresh :
    (h kid : String) (info : KeyInfo) (keys : KeyStore)
    → lookup kid keys ≡ none
    → find_key h keys ≡ none
    → accepts h info ≡ true
    → find_key h (insert kid info keys) ≡ some kid
unfolding find_key
find_key-insert_fresh h kid info [] fresh no_key fits = ground arith
find_key-insert_fresh h kid info ((j, _) ∷ keys) fresh no_key fits =
    ground (arith, find_key-insert_fresh h kid info keys)

revoke-NodupKeys : (kid : String) (keys : KeyStore) → NodupKeys keys → NodupKeys (revoke kid keys)
unfolding revoke
revoke-NodupKeys kid keys u = elim (Option-cases (lookup kid keys)) [
  | inl absent ↦ ground arith
  | inr (info, found) ↦ ground (arith, insert-NodupKeys kid (record info { revoked = true }) keys u)
]

revoke-lookup :
    (kid : String) (keys : KeyStore) (info : KeyInfo)
    → lookup kid (revoke kid keys) ≡ some info
    → info.revoked ≡ true
unfolding revoke
revoke-lookup kid keys info h = elim (Option-cases (lookup kid keys)) [
  | inl absent ↦ ground arith
  | inr (old, found) ↦ ground (arith, lookup-insert kid kid (record old { revoked = true }) keys)
]

key_id_of-ne-nil : (token : String) → key_id_of token ≢ ""
key_id_of-ne-nil token e = cons-ne-nil _ _ (append-eq-nil_iff.0 e).0

raw_key-IsInk : (token : List ℕ) → All IsInk token → All IsInk (raw_key token)
unfolding ℕ_discrete
raw_key-IsInk token ink = (refl, (refl, (refl, (refl, (refl, (refl, (refl, (refl, ink))))))))

module _ (sha256 : List ℕ → String) where
  -- In a store without double keys, the name under which a raw key is accepted is that of an entry
  -- that is not revoked and that holds its hash.
  pub verify_sound :
      (raw : List ℕ) (kid : String) (keys : KeyStore)
      → NodupKeys keys
      → verify sha256 raw keys ≡ some kid
      → Grants (sha256 raw) kid keys
  unfolding verify
  verify_sound raw kid keys u e = find_key-Grants (sha256 raw) kid keys u e

  -- A raw key is accepted whenever some entry that is not revoked holds its hash.
  pub verify_complete :
      (raw : List ℕ) (kid : String) (keys : KeyStore)
      → Grants (sha256 raw) kid keys
      → (found : String) × (verify sha256 raw keys ≡ some found)
  unfolding verify
  verify_complete raw kid keys (info, at, live, same) =
      elim (Option-cases (find_key (sha256 raw) keys)) [
        | inl refused ↦ absurd (find_key_complete (sha256 raw) kid info keys at live same refused)
        | inr (found, e) ↦ (found, e)
      ]

  -- After `revoke` no raw key is accepted under that name, and every other key is as it was.
  pub verify-revoke :
      (raw : List ℕ) (kid other : String) (keys : KeyStore)
      → NodupKeys keys
      → other ≢ kid
      → (verify sha256 raw (revoke kid keys) ≢ some kid)
        × (get other (revoke kid keys) ≡ get other keys)
  unfolding verify get revoke
  verify-revoke raw kid other keys u ne = (
    λ e.
        let (info, at, live, _) =
          find_key-Grants (sha256 raw) kid (revoke kid keys) (revoke-NodupKeys kid keys u) e in
        cc (revoke-lookup kid keys info at),
    elim (Option-cases (lookup kid keys)) [
      | inl absent ↦ ground arith
      | inr (old, found) ↦
          ground (arith, lookup-insert other kid (record old { revoked = true }) keys)
    ],
  )

  -- A new key authenticates at once: the header `Bearer <raw key>` is accepted under its name,
  -- where the name is fresh, no older key has the hash, and the token has no white space.
  pub get_api_key-create :
      (token : List ℕ) (id_token : String) (now : ℕ) (tier : String) (email : Option String)
      (keys : KeyStore)
      → lookup (key_id_of id_token) keys ≡ none
      → verify sha256 (raw_key token) keys ≡ none
      → All IsInk token
      → let (raw, key, keys') = create sha256 token id_token now tier email keys in
        get_api_key (λ r. verify sha256 r keys') (some (codes "Bearer " ++ raw)) ≡ ok key.key_id
  unfolding get_api_key create verify
  get_api_key-create token id_token now tier email keys fresh no_key ink =
      rw
        (
          remove_prefix-append (codes "Bearer ") (raw_key token),
          strip-eq_self (raw_key token) (raw_key-IsInk token ink),
          verify,
          find_key-insert_fresh (sha256 (raw_key token)) (key_id_of id_token)
              (new_info (sha256 (raw_key token)) tier email now) keys fresh no_key
              (==_refl (sha256 (raw_key token))),
        )
        (ground (arith, key_id_of-ne-nil id_token))
