-- ===== src/License/Keys.antt =====
-- Generated license keys, and what an accepted key must be.
use native.Mathlib.Decide.{ℕ_discrete}
use asb_cloud_api.Base.{
  ◌≡◌, refl, ◌≢◌, inl, inr, ℕ, ◌≤◌, true, false, not, some, List, [], ◌∷◌, ◌++◌, arith, All,
  All-append, All-take, length, length-take_le, any_of, contains, take, nat_eq, Option-cases,
  if◌then◌else◌, ap, ◌∙◌,
}
use asb_cloud_api.Base.Int.{ℤ}
use asb_cloud_api.Base.Text.{codes}
use asb_cloud_api.Base.Text.Numerals.{show_int, parse_int-show_int, contains-show_int}
use asb_cloud_api.Base.Text.Split.{split, split-append, split-eq_self}
use asb_cloud_api.License.{
  text_eq, is_hex, payload, parse_fields, parse_parts, parse_key, with_expiry, is_past, signature,
  generate, verify_full,
}

abbrev pub IsHex : ℕ → Type 0
IsHex c = is_hex c ≡ true

text_eq_refl : (s : List ℕ) → text_eq s s ≡ true
unfolding text_eq
text_eq_refl [] = refl
text_eq_refl (c ∷ s) = ground (arith, text_eq_refl s)

text_eq→eq : (s t : List ℕ) → text_eq s t ≡ true → s ≡ t
unfolding text_eq
text_eq→eq [] [] h = refl
text_eq→eq [] (b ∷ t) h = cc
text_eq→eq (a ∷ s) [] h = cc
text_eq→eq (a ∷ s) (b ∷ t) h = ground (arith, text_eq→eq s t)

contains-hex : (s : List ℕ) → All IsHex s → contains s b'_' ≡ false
contains-hex [] h = refl
contains-hex (c ∷ s) h = ground (arith, contains-hex s h.1)

All-hex : (s : List ℕ) → All IsHex s → any_of (λ c. not (is_hex c)) s ≡ false
All-hex [] h = refl
All-hex (c ∷ s) h = ground (arith, All-hex s h.1)

module _ (token sig : List ℕ) (expiry : ℤ) where
  abbrev written : List ℕ
  written = codes "sk_license_" ++ (token ++ (b'_' ∷ (show_int expiry ++ (b'_' ∷ sig))))

  split-written :
      All IsHex token
      → All IsHex sig
      → split b'_' written ≡ codes "sk" ∷ codes "license" ∷ token ∷ show_int expiry ∷ sig ∷ []
  unfolding ℕ_discrete
  split-written ht hs =
      let last = b'_' ∷ sig in
      let dated = b'_' ∷ (show_int expiry ++ last) in
      let dash : ◌≢◌ {A = ℕ} b'_' b'-' = ground arith in
      split-append b'_' (codes "sk") (codes "license_" ++ (token ++ dated)) refl
      ∙ ap (λ r. codes "sk" ∷ r)
          (split-append b'_' (codes "license") (token ++ dated) refl
            ∙ ap (λ r. codes "license" ∷ r)
                (split-append b'_' token (show_int expiry ++ last) (contains-hex token ht)
                  ∙ ap (λ r. token ∷ r)
                      (split-append b'_' (show_int expiry) sig
                          (contains-show_int expiry b'_' refl dash)
                        ∙ ap (λ r. show_int expiry ∷ r)
                            (split-eq_self b'_' sig (contains-hex sig hs)))))

  -- The key reads back as its parts.
  parse_key-written :
      All IsHex token
      → All IsHex sig
      → length token ≡ 16
      → length sig ≡ 16
      → parse_key written ≡ some (token, expiry, sig)
  unfolding parse_key parse_parts parse_fields text_eq with_expiry ℕ_discrete
  parse_key-written ht hs lt ls = rw (
    split-written ht hs,
    lt,
    ls,
    All-hex (token ++ sig) (All-append IsHex token sig ht hs),
    parse_int-show_int expiry,
  )

-- Texts with colons between them.
abbrev join_colons : List (List ℕ) → List ℕ
join_colons [] = []
join_colons (s ∷ []) = s
join_colons (s ∷ t ∷ texts) = s ++ (b':' ∷ join_colons (t ∷ texts))

-- What a signature is for.
abbrev pub signed_text : List ℕ → List ℕ → List ℕ → ℤ → List ℕ
signed_text license_type domain token expiry =
    join_colons (license_type ∷ domain ∷ token ∷ show_int expiry ∷ [])

module _ (sign : List ℕ → List ℕ) where
  -- A generated key verifies for its type and its domain until it expires, and is then reported as
  -- expired; the token has 16 hexadecimal digits and so has the head of every signature.
  pub verify_full-generate :
      (token license_type domain : List ℕ) (expiry : ℤ) (now : ℕ)
      → ((text : List ℕ) → All IsHex (sign text) × (16 ≤ length (sign text)))
      → All IsHex token
      → length token ≡ 16
      → let key = generate sign token license_type domain expiry in
        verify_full sign now key license_type domain
        ≡ (if is_past now expiry then (false, "License key expired") else (true, ""))
  unfolding verify_full
  verify_full-generate token license_type domain expiry now digest ht lt =
      let sig = signature sign license_type domain token expiry in
      let text = payload license_type domain token expiry in
      let hex : All IsHex sig = unfold signature in All-take IsHex 16 (sign text) (digest text).0 in
      let long : length sig ≡ 16 =
        unfold signature in length-take_le 16 (sign text) (digest text).1 in
      let read : parse_key (generate sign token license_type domain expiry)
          ≡ some (token, expiry, sig) =
        unfold generate in parse_key-written token sig expiry ht hex lt long in
      rw (read, verify_full) (rw (text_eq_refl sig) refl)

  -- A key is accepted only where it carries the first 16 digits of the signature of one text, the
  -- type and the domain that it is presented with, its token and its expiry, in this order with
  -- colons between them, and only before that expiry. (Where the type or the domain has a colon,
  -- other types and domains share the text.)
  pub verify_full_sound :
      (now : ℕ) (key license_type domain : List ℕ)
      → verify_full sign now key license_type domain ≡ (true, "")
      → (token : List ℕ) × (expiry : ℤ) × (parse_key key
          ≡ some (token, expiry, take 16 (sign (signed_text license_type domain token expiry))))
        × (is_past now expiry ≡ false)
  unfolding verify_full signature payload
  verify_full_sound now key license_type domain h = elim (Option-cases (parse_key key)) [
    | inl malformed ↦ absurd (ground arith)
    | inr ((token, expiry, sig), read) ↦
        let same =
          text_eq→eq (signature sign license_type domain token expiry) sig (ground arith) in
        (token, expiry, rw same read, ground arith)
  ]
