-- ===== src/Runner.antt =====
-- The browser runner: asb_api/workers/asb_runner.py. The browser is a parameter, with a state that
-- its calls change; each call returns or raises. So are Python's `upper` and `lower`.
pub mod Contexts
pub mod Lifecycle
use asb_cloud_api.Base.{
  ℕ, ◌*◌, String, ◌<>◌, Bool, true, false, ◌==◌, ◌||◌, Option, none, some, [], any_of, string_eq,
  if◌then◌else◌,
}
use asb_cloud_api.Base.Dict.{Dict, insert}
use asb_cloud_api.Base.Text.{str_int}
use asb_cloud_api.Http.{Result, ok, err, value_error, runtime_error}
use asb_cloud_api.Providers.{ProxyConfig}
use asb_cloud_api.Fingerprint.{Fingerprint}
use asb_cloud_api.Sessions.{Cookies}
use asb_cloud_api.Worker.{Page}

pub record ProxySettings : Type 0 where
  pub server : String
  pub username : Option String
  pub password : Option String

-- The arguments of `browser.new_context`.
pub record ContextOptions : Type 0 where
  pub fingerprint : Fingerprint
  pub proxy : Option ProxySettings
  pub extra_http_headers : Dict String String

-- The calls of the browser: contexts `C`, pages `P`, responses `R`.
pub record Browser (B C P R : Type 0) : Type 0 where
  pub new_context : ContextOptions → B → Result C × B
  pub new_page : C → B → Result P × B
  pub fetch : C → String → Dict String String → Option String → ℕ → B → Result R × B
  pub text : R → B → Result String × B
  pub set_content : P → String → ℕ → B → Result {0} Unit × B
  pub goto : P → String → ℕ → B → Result (Option R) × B
  pub content : P → B → Result String × B
  pub cookies : C → B → Result Cookies × B
  pub screenshot : P → String → B → Result {0} Unit × B
  pub close : C → B → Result {0} Unit × B
  pub headers : R → Dict String String

-- The data of a request: text or bytes, or a JSON value with its `json.dumps`.
pub data RequestData : Type 0 where
  raw : String → RequestData
  value : String → RequestData

pub record Job : Type 0 where
  pub url : String
  pub method : String
  pub headers : Dict String String
  pub payload : Option RequestData
  pub proxy : Option ProxyConfig
  pub fingerprint : Fingerprint
  pub timeout : ℕ
  pub screenshot : Bool
  pub screenshot_dir : Option String

-- The first exception ends a sequence of calls.
unfoldable pub after : {B A D : Type 0} → Result A × B → (A → B → Result D × B) → Result D × B
after (ok a, b) k = k a b
after (err e, b) k = (err e, b)

unfoldable pub prepare_body :
    (String → String) → Dict String String → Option RequestData → Dict String String × Option String
prepare_body lower headers none = (headers, none)
prepare_body lower headers (some (raw s)) = (headers, some s)
prepare_body lower headers (some (value json)) =
    let has_content_type = any_of (λ (k, _). lower k == "content-type") headers in
    (
      (if has_content_type then headers else insert "Content-Type" "application/json" headers),
      some json,
    )

-- `proxy and proxy.host != "DIRECT"`
unfoldable pub proxy_settings : Option ProxyConfig → Option ProxySettings
proxy_settings none = none
proxy_settings (some proxy) =
    if proxy.host == "DIRECT"
    then none
    else some (record {
      server = proxy.protocol <> ("://" <> (proxy.host <> (":" <> str_int proxy.port)));
      username = proxy.username;
      password = proxy.password;
    })

module _ {B C P R : Type 0} (browser : Browser B C P R) where
  -- The page after the request: its HTML and the headers of the response.
  unfoldable pub load :
      Job
      → Bool
      → Dict String String
      → Option String
      → C
      → P
      → B
      → Result (String × Dict String String) × B
  load job true headers body context page b =
      after (browser.fetch context job.url headers body (job.timeout * 1000) b) λ response b1.
        after (browser.text response b1) λ html b2.
          after (browser.set_content page html (job.timeout * 1000) b2)
            λ _ b3. (ok (html, browser.headers response), b3)
  load job false headers body context page b =
      after (browser.goto page job.url (job.timeout * 1000) b) λ response b1.
        after (browser.content page b1)
          λ html b2. (ok (html, elim response [ none ↦ [] | some r ↦ browser.headers r ]), b2)

  -- `if screenshot and screenshot_dir`; `name` is `uuid.uuid4().hex`.
  unfoldable pub take_screenshot : Job → String → P → B → Result (Option String) × B
  take_screenshot job name page b =
      let directory : String = elim job.screenshot_dir [ none ↦ "" | some d ↦ d ] in
      let path = directory <> ("/" <> (name <> ".png")) in
      let taken = after (browser.screenshot page path b) λ _ b1. (ok (some path), b1) in
      if directory == "" then (ok none, b) else (if job.screenshot then taken else (ok none, b))

  unfoldable pub browse :
      Job → Bool → String → Dict String String → Option String → C → P → B → Result Page × B
  browse job is_post name headers body context page b =
      after (load job is_post headers body context page b) λ (html, headers_out) b1.
        after (browser.cookies context b1) λ cookies b2.
          after (take_screenshot job name page b2) λ screenshot_url b3. (
            ok (record {
              html = html;
              screenshot_url = screenshot_url;
              cookies = cookies;
              headers = headers_out;
              block_detected = false;
            }),
            b3,
          )

  -- `finally: await context.close()`: what the close raises is raised.
  unfoldable pub closing : C → Result Page × B → Result Page × B
  closing context (result, b) = after (browser.close context b) λ _ b1. (result, b1)

  unfoldable pub in_context :
      Job → Bool → String → Dict String String → Option String → C → B → Result Page × B
  in_context job is_post name headers body context b =
      after (browser.new_page context b)
        λ page b1. closing context (browse job is_post name headers body context page b1)

  -- `started` says that the runner has a browser.
  unfoldable pub run :
      (String → String) → (String → String) → Bool → String → Job → B → Result Page × B
  run upper lower started name job b =
      let method_upper = upper (if job.method == "" then "GET" else job.method) in
      let (headers, body) = prepare_body lower job.headers job.payload in
      let options : ContextOptions = record {
        fingerprint = job.fingerprint;
        proxy = proxy_settings job.proxy;
        extra_http_headers = headers;
      } in
      if method_upper == "GET" || method_upper == "POST"
      then (if started
          then after (browser.new_context options b)
              (in_context job (method_upper == "POST") name headers body)
          else (err (runtime_error "ASBRunner has not been started"), b))
      else (err (value_error ("Unsupported scrape method: " <> method_upper)), b)
