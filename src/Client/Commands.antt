-- ===== src/Client/Commands.antt =====
-- The methods of the client as requests, clients/python/asb_client/client.py, and the command line
-- over them, clients/cli/asb_cli/cli.py, after its arguments are parsed.
use asb_cloud_api.Base.{
  ◌≡◌, ◌⊎◌, inl, inr, ℕ, String, ◌<>◌, Bool, Option, none, some, string_eq, arith,
}
use asb_cloud_api.Base.Int.{ℤ}
use asb_cloud_api.Base.Dict.{Dict}
use asb_cloud_api.Http.{
  Body, HttpException, rate_limit_exceeded, overage_limit_exceeded,
  structured_http_exception_handler,
}
use asb_cloud_api.Models.{ScrapeRequest}
use asb_cloud_api.Client.{
  Node, ClientError, asb_error, auth_error, not_found_error, rate_limit_error, overage_error,
  type_error, attribute_error, Outcome, returned, raised, Sent, responded, request, first_true,
}
use asb_cloud_api.Client.Payload.{Payload, scrape_payload, session_payload}
use asb_cloud_api.Client.Errors.{received, raised_for-limits}

-- The commands, with their arguments; `none` is JSON that `json.loads` refuses.
pub data Command : Type 0 where
  health usage billing_portal : Command
  scrape : Option ScrapeRequest → Command
  session_create : String → Option String → Command
  session_get session_delete : String → Command

-- The body of a request.
pub data Sending : Type 0 where
  nothing : Sending
  scrape_body : Payload → Sending
  session_body : Dict String String → Sending

pub record HttpCall : Type 0 where
  pub method : String
  pub path : String
  pub sending : Sending

abbrev pub call_of : String → String → Sending → HttpCall
call_of method path sending = record { method = method; path = path; sending = sending }

-- What the methods of the client pass to `_request`.
unfoldable pub http_call : Command → Option HttpCall
http_call health = some (call_of "GET" "/v1/health" nothing)
http_call usage = some (call_of "GET" "/v1/usage" nothing)
http_call billing_portal = some (call_of "GET" "/v1/billing/portal" nothing)
http_call (scrape none) = none
http_call (scrape (some a)) = some (call_of "POST" "/v1/scrape" (scrape_body (scrape_payload a)))
http_call (session_create region fingerprint) =
    some (call_of "POST" "/v1/sessions" (session_body (session_payload region fingerprint)))
http_call (session_get id) = some (call_of "GET" ("/v1/sessions/" <> id) nothing)
http_call (session_delete id) = some (call_of "DELETE" ("/v1/sessions/" <> id) nothing)

-- `except AsbError` and `except Exception`.
unfoldable pub exit_code_of : ClientError → ℕ
exit_code_of (asb_error _) = 1
exit_code_of (auth_error _) = 1
exit_code_of (not_found_error _) = 1
exit_code_of (rate_limit_error _) = 1
exit_code_of (overage_error _) = 1
exit_code_of (type_error _) = 2
exit_code_of (attribute_error _) = 2

unfoldable pub exit_code : Outcome → ℕ
exit_code (returned _) = 0
exit_code (raised e) = exit_code_of e

-- `get_client`: the URL and the key, from the arguments or the environment.
unfoldable pub get_client :
    Option String → Option String → Option String → Option String → String × Option String
get_client base_url env_base_url api_key env_api_key = (
  elim (first_true base_url none) [
    | some url ↦ url
    | none ↦ elim env_base_url [ none ↦ "http://localhost:8000" | some url ↦ url ]
  ],
  elim (first_true api_key none) [ some key ↦ some key | none ↦ env_api_key ],
)

module _ (repr : Dict String Node → String) (has_key : Bool) (transport : HttpCall → Sent) where
  -- The exit code of a command.
  unfoldable pub main : Command → ℕ
  main command = elim (http_call command) [
    | none ↦ 2
    | some call ↦ exit_code (request repr has_key (transport call))
  ]

  -- A command that the service refuses for its rate limit or for an overage ends with 2, the code
  -- for what is not expected, where any error of the service is meant to end with 1.
  main-limits :
      (price : ℕ → String) (encode repr_body : Body → String) (limit remaining reset_at : ℤ)
      (cost : ℕ) (command : Command) (call : HttpCall) (exc : HttpException)
      → http_call command ≡ some call
      → (exc ≡ rate_limit_exceeded limit remaining reset_at) ⊎ (exc ≡ overage_limit_exceeded cost)
      → transport call
        ≡ responded (received price encode (structured_http_exception_handler repr_body exc))
      → main command ≡ 2
  unfolding main request exit_code exit_code_of
  main-limits price encode repr_body limit remaining reset_at cost command call exc called refused
        sent =
      let (limits, overage) =
        raised_for-limits price encode repr_body repr has_key limit remaining reset_at cost in
      elim refused [ inl e ↦ ground (arith, e, limits) | inr e ↦ ground (arith, e, overage) ]
