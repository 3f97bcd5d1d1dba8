-- ===== src/Security/Urls.antt =====
-- What a URL that passes the check is, and what the check raises.
use asb_cloud_api.Base.{
  arith, ◌≡◌, refl, ◌≢◌, ◌⊎◌, inl, inr, ℕ, String, Bool, List, ◌∷◌, All, any_of, true, false, ◌&&◌,
  ◌||◌, none, some, [], ◌==◌, contains, string_eq, Bool-cases, Option-cases,
}
use asb_cloud_api.Base.Text.{codes, lower, is_infix_of}
use asb_cloud_api.Http.{ok, err, http, api_error}
use asb_cloud_api.Security.{
  strip_brackets, same_text, ends_with, is_private_address, Net, SecurityConfig, Url, host_of,
  bad_url, is_private_or_localhost, validate_parsed, validate_scrape_url, is_nil, schemes_of,
}

-- A host outside the private networks: it has a name, which in lower case and without brackets is
-- none of the names of the machine itself or of the metadata services, does not end like a name of a
-- local network, has no part of a private address, and neither is nor resolves to an address that
-- `ipaddress` calls private.
abbrev pub IsPublic : Net → List ℕ → Type 0
IsPublic net host =
    let h = strip_brackets (lower host) in
    (host ≢ [])
    × All (λ name. same_text (codes name) h ≡ false)
        ("localhost" ∷ "localhost.localdomain" ∷ "127.0.0.1" ∷ "::1" ∷ "0.0.0.0"
          ∷ "metadata.google.internal" ∷ "169.254.169.254" ∷ [])
    × All (λ suffix. ends_with h (codes suffix) ≡ false) (".local" ∷ ".internal" ∷ ".lan" ∷ [])
    × All (λ part. is_infix_of (codes part) h ≡ false)
        ("metadata" ∷ "169.254" ∷ "10." ∷ "192.168." ∷ "172.16." ∷ "172.17." ∷ "172.18." ∷ [])
    × (net.is_private_ip (strip_brackets h) ≡ false)
    × All (λ address. net.is_private_ip (strip_brackets address) ≡ false) (net.resolve h)

any_of-All :
    {A : Type 0} (p : A → Bool) (xs : List A) → any_of p xs ≡ false → All (λ x. p x ≡ false) xs
any_of-All p [] h = tt
any_of-All p (x ∷ xs) h = (ground arith, any_of-All p xs (ground arith))

or_false : (a b : Bool) → (a || b) ≡ false → (a ≡ false) × (b ≡ false)
or_false true b h = cc h
or_false false b h = (refl, h)

-- The test passes only hosts that are public.
is_private_or_localhost-IsPublic :
    (net : Net) (host : List ℕ) → is_private_or_localhost net host ≡ false → IsPublic net host
unfolding is_private_or_localhost is_private_address
is_private_or_localhost-IsPublic net [] h = cc h
is_private_or_localhost-IsPublic net (c ∷ host) passed =
    let h : List ℕ = strip_brackets (lower (c ∷ host)) in
    let (names, rest1) = or_false _ _ passed in
    let (address, rest2) = or_false _ _ rest1 in
    let (suffixes, rest3) = or_false _ _ rest2 in
    let (parts, resolved) = or_false _ _ rest3 in
    (
      λ e. cc e,
      any_of-All (λ name. same_text (codes name) h)
          ("localhost" ∷ "localhost.localdomain" ∷ "127.0.0.1" ∷ "::1" ∷ "0.0.0.0"
            ∷ "metadata.google.internal" ∷ "169.254.169.254" ∷ [])
          names,
      any_of-All (λ suffix. ends_with h (codes suffix)) (".local" ∷ ".internal" ∷ ".lan" ∷ [])
          suffixes,
      any_of-All (λ part. is_infix_of (codes part) h)
          ("metadata" ∷ "169.254" ∷ "10." ∷ "192.168." ∷ "172.16." ∷ "172.17." ∷ "172.18." ∷ [])
          parts,
      address,
      any_of-All (is_private_address net) (net.resolve h) resolved,
    )

-- The URL parses, its scheme is allowed, and where private networks are blocked its host is public.
abbrev pub IsSafe : Net → SecurityConfig → String → Type 0
IsSafe net cfg url =
    (parsed : Url) × (net.urlparse url ≡ some parsed)
    × (contains (schemes_of cfg) parsed.scheme ≡ true)
    × ((cfg.block_private_networks ≡ false) ⊎ IsPublic net (host_of parsed))

blocked-IsPublic :
    (block : Bool) (net : Net) (host : List ℕ)
    → (block && is_private_or_localhost net host) ≡ false
    → (block ≡ false) ⊎ IsPublic net host
blocked-IsPublic false net host h = inl refl
blocked-IsPublic true net host h = inr (is_private_or_localhost-IsPublic net host h)

validate_parsed_cases :
    (net : Net) (cfg : SecurityConfig) (url : String) (parsed : Url)
    → ((validate_parsed net cfg url (some parsed) ≡ ok url)
        × (contains (schemes_of cfg) parsed.scheme ≡ true)
        × ((cfg.block_private_networks && is_private_or_localhost net (host_of parsed)) ≡ false))
      ⊎ ((code : String) × (message : String) × (validate_parsed net cfg url (some parsed)
            ≡ bad_url code message))
unfolding validate_parsed
validate_parsed_cases net cfg url parsed =
    elim (Bool-cases (parsed.scheme == "" || is_nil parsed.netloc)) [
      | inl missing ↦ rw missing (inr (_, _, refl))
      | inr full ↦ elim (Bool-cases (contains (schemes_of cfg) parsed.scheme)) [
        | inr other ↦ rw (full, other) (inr (_, _, refl))
        | inl allowed ↦
            elim (Bool-cases
              (cfg.block_private_networks && is_private_or_localhost net (host_of parsed))) [
                | inl blocked ↦ rw (full, allowed, blocked) (inr (_, _, refl))
                | inr free ↦ rw (full, allowed, free) (inl (refl, refl, refl))
              ]
      ]
    ]

-- The check answers the URL it was given, for a safe one, or it raises the exception of a response
-- 400 with a code and a message.
pub validate_scrape_url_cases :
    (net : Net) (cfg : SecurityConfig) (url : String)
    → ((validate_scrape_url net cfg url ≡ ok url) × IsSafe net cfg url)
      ⊎ ((code : String) × (message : String) × (validate_scrape_url net cfg url
            ≡ err (http (api_error 400 code message none []))))
unfolding validate_scrape_url bad_url
validate_scrape_url_cases net cfg url = elim (Bool-cases (url == "")) [
  | inl empty ↦ rw empty (inr (_, _, refl))
  | inr given ↦ elim (Option-cases (net.urlparse url)) [
    | inl failed ↦ rw (given, failed, validate_parsed) (inr (_, _, refl))
    | inr (parsed, there) ↦ elim (validate_parsed_cases net cfg url parsed) [
      | inl (passed, allowed, free) ↦ inl (
        rw (given, there) passed,
        (
          parsed,
          there,
          allowed,
          blocked-IsPublic cfg.block_private_networks net (host_of parsed) free,
        ),
      )
      | inr (code, message, raised) ↦ inr (code, message, rw (given, there) raised)
    ]
  ]
]
