-- ===== src/Security/Redaction.antt =====
-- URLs in logs, `redact_url_for_logging` of asb_api/security.py. What `urlparse` gives is a parameter.
use native.Mathlib.Decide.{ℕ_discrete}
use asb_cloud_api.Base.{
  ◌≡◌, refl, ◌∙◌, ap, ℕ, Bool, true, false, Option, none, some, List, [], ◌∷◌, ◌++◌, ◌==◌, contains,
  Bool-cases, inl, inr, nat_eq, if◌then◌else◌,
}
use asb_cloud_api.Base.Int.{pos}
use asb_cloud_api.Base.Text.{codes, is_infix_of}
use asb_cloud_api.Base.Text.Split.{split, split-eq_self}
use asb_cloud_api.Base.Text.Numerals.{show_int}
use asb_cloud_api.Security.{SecurityConfig}

-- What `urlparse` gives; `port` is `none` where its access raises.
pub record Parts : Type 0 where
  pub netloc : List ℕ
  pub hostname : Option (List ℕ)
  pub port : Option (Option ℕ)

-- `xs[-1]` of a list that is not empty.
abbrev pub last_of : List (List ℕ) → List ℕ
last_of [] = []
last_of (x ∷ []) = x
last_of (_ ∷ y ∷ xs) = last_of (y ∷ xs)

-- `parsed.hostname or parsed.netloc.split("@")[-1]`
unfoldable pub host_of : Parts → List ℕ
host_of parts = elim parts.hostname [
  | none ↦ last_of (split b'@' parts.netloc)
  | some [] ↦ last_of (split b'@' parts.netloc)
  | some (c ∷ h) ↦ c ∷ h
]

-- `f":{parsed.port}" if parsed.port else ""`
abbrev pub port_text : Option ℕ → List ℕ
port_text none = []
port_text (some n) = if n == 0 then [] else b':' ∷ show_int (pos n)

abbrev pub third_of : List (List ℕ) → List ℕ
third_of (_ ∷ _ ∷ x ∷ _) = x
third_of _ = []

abbrev pub first_of : List (List ℕ) → List ℕ
first_of [] = []
first_of (x ∷ _) = x

abbrev pub at_port : List ℕ → Option (Option ℕ) → List ℕ
at_port host none = codes "[REDACTED_URL]"
at_port host (some port) = host ++ port_text port

-- Only the domain. A text without one is cut at its slashes.
abbrev pub at_netloc : List ℕ → Parts → List ℕ → List ℕ
at_netloc url parts [] =
    let pieces = split b'/' url in
    if is_infix_of (codes "://") url then third_of pieces else first_of pieces
at_netloc url parts (_ ∷ _) = at_port (host_of parts) parts.port

abbrev pub shown_of : List ℕ → Bool → Option Parts → List ℕ
shown_of url use_domains_only none = codes "[REDACTED_URL]"
shown_of url true (some parts) = at_netloc url parts parts.netloc
shown_of url false (some parts) = url

unfoldable pub redact_url_for_logging :
    SecurityConfig → Option Bool → (List ℕ → Option Parts) → List ℕ → List ℕ
redact_url_for_logging cfg domains_only parse [] = []
redact_url_for_logging cfg domains_only parse (c ∷ url) =
    let use_domains_only : Bool = elim domains_only [
      | none ↦ cfg.log_url_domains_only
      | some b ↦ b
    ] in
    shown_of (c ∷ url) use_domains_only (parse (c ∷ url))

-- The text after the last `@` is the last of at least two pieces.
split-last :
    (user host : List ℕ)
    → contains host b'@' ≡ false
    → (p : List ℕ) × (q : List ℕ) × (ps : List (List ℕ)) × (split b'@' (user ++ (b'@' ∷ host))
        ≡ p ∷ q ∷ ps)
      × (last_of (q ∷ ps) ≡ host)
unfolding ℕ_discrete
split-last [] host clean = ([], host, [], ap (λ r. [] ∷ r) (split-eq_self b'@' host clean), refl)
split-last (c ∷ user) host clean =
    let (p, q, ps, pieces, last) = split-last user host clean in
    elim (Bool-cases (c == b'@')) [
      | inl at ↦ ([], p, q ∷ ps, rw (at, pieces) refl, last)
      | inr ne ↦ (c ∷ p, q, ps, rw (ne, pieces) refl, last)
    ]

last_of-split-append :
    (user host : List ℕ)
    → contains host b'@' ≡ false
    → last_of (split b'@' (user ++ (b'@' ∷ host))) ≡ host
last_of-split-append user host clean =
    let (p, q, ps, pieces, last) = split-last user host clean in ap last_of pieces ∙ last

-- `urlparse`'s name of the host, where it gives one, else the text after the user information.
abbrev pub named : List ℕ → Option (List ℕ) → List ℕ
named host none = host
named host (some []) = host
named host (some (c ∷ h)) = c ∷ h

host_of-named :
    (parts : Parts) (user host : List ℕ)
    → parts.netloc ≡ user ++ (b'@' ∷ host)
    → contains host b'@' ≡ false
    → host_of parts ≡ named host parts.hostname
unfolding host_of
host_of-named parts user host located clean = host_cases parts.hostname
  where
    last : last_of (split b'@' parts.netloc) ≡ host
    last = ap (λ s. last_of (split b'@' s)) located ∙ last_of-split-append user host clean

    host_cases :
        (hostname : Option (List ℕ))
        → host_of (record parts { hostname = hostname }) ≡ named host hostname
    host_cases none = last
    host_cases (some []) = last
    host_cases (some (c ∷ h)) = refl

at_netloc-located :
    (url : List ℕ) (parts : Parts) (user host netloc : List ℕ)
    → netloc ≡ user ++ (b'@' ∷ host)
    → at_netloc url parts netloc ≡ at_port (host_of parts) parts.port
at_netloc-located url parts [] host [] located = cc located
at_netloc-located url parts (c ∷ user) host [] located = cc located
at_netloc-located url parts user host (_ ∷ _) located = refl

-- Where a URL has user information before an `@` and a host without one, and only domains are asked
-- for, the log line is the name of the host that `urlparse` gives, or else the text after the `@`,
-- and the port, or the mark of a redacted URL where the port cannot be read: the text of the user
-- information is no part of it.
pub redact_url-named :
    (cfg : SecurityConfig) (parse : List ℕ → Option Parts) (c : ℕ) (url : List ℕ) (parts : Parts)
    (user host : List ℕ)
    → parse (c ∷ url) ≡ some parts
    → parts.netloc ≡ user ++ (b'@' ∷ host)
    → contains host b'@' ≡ false
    → redact_url_for_logging cfg (some true) parse (c ∷ url)
      ≡ at_port (named host parts.hostname) parts.port
unfolding redact_url_for_logging
redact_url-named cfg parse c url parts user host parsed located clean =
    ap (shown_of (c ∷ url) true) parsed
    ∙ at_netloc-located (c ∷ url) parts user host parts.netloc located
    ∙ ap (λ h. at_port h parts.port) (host_of-named parts user host located clean)
