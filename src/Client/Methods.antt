-- ===== src/Client/Methods.antt =====
-- The asynchronous methods of `AsbClient`, clients/python/asb_client/client.py, which send what the
-- synchronous ones send, over the other client of httpx.
use asb_cloud_api.Base.{
  ◌≡◌, refl, sym, Bool-cases, inl, inr, arith, String, ◌<>◌, ◌==◌, Option, none, some, [], ◌∷◌,
  string_eq, if◌then◌else◌,
}
use asb_cloud_api.Base.Dict.{Dict, insert}
use asb_cloud_api.Models.{ScrapeRequest}
use asb_cloud_api.Client.Payload.{
  Payload, scrape_payload, session_payload, if_true, headers_if_true,
}
use asb_cloud_api.Client.Commands.{
  Command, health, usage, billing_portal, scrape, session_create, session_get, session_delete,
  HttpCall, call_of, nothing, scrape_body, session_body, http_call,
}

-- The methods `health_async` to `get_billing_portal_async`, with their arguments.
pub data AsyncMethod : Type 0 where
  health_async get_usage_async get_billing_portal_async : AsyncMethod
  scrape_async : ScrapeRequest → AsyncMethod
  create_session_async : String → Option String → AsyncMethod
  get_session_async delete_session_async : String → AsyncMethod

abbrev put_headers : Dict String String → Payload → Payload
put_headers [] p = p
put_headers (h ∷ hs) p = record p { headers = some (h ∷ hs) }

abbrev put_body : Option String → Payload → Payload
put_body none p = p
put_body (some d) p = record p { body = some d }

-- `if x: payload[...] = x` of a text.
abbrev put_text : Option String → (String → Payload → Payload) → Payload → Payload
put_text none put p = p
put_text (some s) put p = if s == "" then p else put s p

-- The dict that `scrape_async` starts from.
unfoldable pub base_payload : ScrapeRequest → Payload
base_payload a = record {
  url = a.url;
  method = some a.method;
  timeout = some a.timeout;
  screenshot = some a.screenshot;
  session_type = some a.session_type;
  headers = none;
  body = none;
  proxy_provider = none;
  region = none;
  fingerprint = none;
  session_id = none;
}

-- The body of `scrape_async`, entry by entry.
unfoldable pub async_scrape_payload : ScrapeRequest → Payload
unfolding base_payload
async_scrape_payload a =
    let p1 = put_body a.body (put_headers a.headers (base_payload a)) in
    let p2 = put_text a.proxy_provider (λ s p. record p { proxy_provider = some s }) p1 in
    let p3 = put_text a.region (λ s p. record p { region = some s }) p2 in
    let p4 = put_text a.fingerprint (λ s p. record p { fingerprint = some s }) p3 in
    put_text a.session_id (λ s p. record p { session_id = some s }) p4

-- The body of `create_session_async`.
unfoldable pub async_session_payload : String → Option String → Dict String String
async_session_payload region none = ("region", region) ∷ []
async_session_payload region (some f) =
    if f == "" then ("region", region) ∷ [] else insert "fingerprint" f (("region", region) ∷ [])

-- What each method passes to `_arequest`.
unfoldable pub async_call : AsyncMethod → HttpCall
async_call health_async = call_of "GET" "/v1/health" nothing
async_call (scrape_async a) = call_of "POST" "/v1/scrape" (scrape_body (async_scrape_payload a))
async_call (create_session_async region fingerprint) =
    call_of "POST" "/v1/sessions" (session_body (async_session_payload region fingerprint))
async_call (get_session_async id) = call_of "GET" ("/v1/sessions/" <> id) nothing
async_call (delete_session_async id) = call_of "DELETE" ("/v1/sessions/" <> id) nothing
async_call get_usage_async = call_of "GET" "/v1/usage" nothing
async_call get_billing_portal_async = call_of "GET" "/v1/billing/portal" nothing

-- The synchronous method that an asynchronous one stands beside.
abbrev pub sync_of : AsyncMethod → Command
sync_of health_async = health
sync_of (scrape_async a) = scrape (some a)
sync_of (create_session_async region fingerprint) = session_create region fingerprint
sync_of (get_session_async id) = session_get id
sync_of (delete_session_async id) = session_delete id
sync_of get_usage_async = usage
sync_of get_billing_portal_async = billing_portal

put_text_lem :
    (x : Option String) (put : String → Payload → Payload) (set : Option String → Payload → Payload)
    (p : Payload)
    → ((s : String) → put s p ≡ set (some s) p)
    → set none p ≡ p
    → put_text x put p ≡ set (if_true x) p
put_text_lem none put set p is_put unset = sym unset
put_text_lem (some s) put set p is_put unset = elim (Bool-cases (s == "")) [
  | inl e ↦ rw e (sym unset)
  | inr e ↦ rw e (is_put s)
]

put_headers_lem :
    (headers : Dict String String) (p : Payload)
    → p.headers ≡ none
    → put_headers headers p ≡ record p { headers = headers_if_true headers }
put_headers_lem [] p unset = ground arith
put_headers_lem (h ∷ hs) p unset = refl

put_body_lem :
    (body : Option String) (p : Payload)
    → p.body ≡ none
    → put_body body p ≡ record p { body = body }
put_body_lem none p unset = ground arith
put_body_lem (some d) p unset = refl

async_scrape_payload-eq : (a : ScrapeRequest) → async_scrape_payload a ≡ scrape_payload a
unfolding async_scrape_payload scrape_payload
async_scrape_payload-eq a =
    let q0 = record (base_payload a) { headers = headers_if_true a.headers } in
    let q1 = record q0 { body = a.body } in
    let q2 = record q1 { proxy_provider = if_true a.proxy_provider } in
    let q3 = record q2 { region = if_true a.region } in
    let q4 = record q3 { fingerprint = if_true a.fingerprint } in
    rw
      (
        put_headers_lem a.headers (base_payload a) refl,
        put_body_lem a.body q0 refl,
        put_text_lem a.proxy_provider (λ s p. record p { proxy_provider = some s })
            (λ o p. record p { proxy_provider = o }) q1 (λ s. refl) refl,
        put_text_lem a.region (λ s p. record p { region = some s }) (λ o p. record p { region = o })
            q2 (λ s. refl) refl,
        put_text_lem a.fingerprint (λ s p. record p { fingerprint = some s })
            (λ o p. record p { fingerprint = o }) q3 (λ s. refl) refl,
        put_text_lem a.session_id (λ s p. record p { session_id = some s })
            (λ o p. record p { session_id = o }) q4 (λ s. refl) refl,
      )
      refl

async_session_payload-eq :
    (region : String) (fingerprint : Option String)
    → async_session_payload region fingerprint ≡ session_payload region fingerprint
unfolding async_session_payload session_payload string_eq
async_session_payload-eq region none = refl
async_session_payload-eq region (some f) = ground arith

-- An asynchronous method sends the method, the path and the body that the synchronous one sends.
pub async_call-sync_of : (m : AsyncMethod) → http_call (sync_of m) ≡ some (async_call m)
unfolding async_call http_call
async_call-sync_of health_async = refl
async_call-sync_of (scrape_async a) = rw (async_scrape_payload-eq a) refl
async_call-sync_of (create_session_async region fingerprint) =
    rw (async_session_payload-eq region fingerprint) refl
async_call-sync_of (get_session_async id) = refl
async_call-sync_of (delete_session_async id) = refl
async_call-sync_of get_usage_async = refl
async_call-sync_of get_billing_portal_async = refl
