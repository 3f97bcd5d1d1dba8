-- ===== src/Client/Errors.antt =====
-- What the client makes of the answers of the service, asb_api/api/errors.py.
use asb_cloud_api.Base.{
  ◌≡◌, refl, ap, ◌≢◌, ◌⊎◌, ℕ, ◌≤◌, ◌<◌, String, Bool, true, not, ◌∙◌, ◌&&◌, ◌||◌, ◌==◌, Option,
  none, some, [], ◌∷◌, arith, nat_eq, string_eq, if◌then◌else◌,
}
use native.Mathlib.Decide.{ℕ_discrete}
use asb_cloud_api.Base.Int.{ℤ, pos, eqb_ℤ}
use asb_cloud_api.Base.Dict.{Dict, lookup, has_key as has_field}
use asb_cloud_api.Base.Text.{str_int}
use asb_cloud_api.Http.{
  Value, str, num, mills, Body, body, Headers, HttpException, JsonResponse, api_error,
  rate_limit_exceeded, overage_limit_exceeded, structured_http_exception_handler,
}
use asb_cloud_api.Http.Shape.{handler-content, text_content-coded}
use asb_cloud_api.Http
use asb_cloud_api.Client.{
  auth_error, mentions, text, other, Node, leaf, object, Response, ErrorInfo, ClientError,
  asb_error, not_found_error, type_error, error_of, raise_for, rate_limit_init, overage_init,
  handle_error,
}

-- The JSON of a value, read back. `price` is the text of a number of thousandths.
module _ (price : ℕ → String) where
  abbrev pub node_of : Value → Node
  node_of (str s) = leaf (text s)
  node_of (num n) = leaf (other (not (eqb_ℤ n (pos 0))) (str_int n))
  node_of (mills n) = leaf (other (not (n == 0)) (price n))

  abbrev pub nodes_of : Body → Dict String Node
  nodes_of [] = []
  nodes_of ((k, v) ∷ b) = (k, node_of v) ∷ nodes_of b

  -- The response as the client gets it.
  abbrev pub received : (Body → String) → JsonResponse → Response
  received encode r = record {
    status_code = r.status_code;
    json = some (object (nodes_of r.content));
    text = encode r.content;
  }

-- The body of an error with a code and a message.
abbrev coded : String → String → Dict String Node
coded code message = ("error_code", leaf (text code)) ∷ ("message", leaf (text message)) ∷ []

coded_fields :
    (code message : String)
    → let d : Body = ("error_code", str code) ∷ ("message", str message) ∷ [] in
      (has_field "error_code" d ≡ true) × (has_field "message" d ≡ true)
unfolding string_eq
coded_fields code message = (refl, refl)

lookup-coded :
    (code message : String)
    → (lookup "error_code" (coded code message) ≡ some (leaf (text code)))
      × (lookup "message" (coded code message) ≡ some (leaf (text message)))
      × (lookup "detail" (coded code message) ≡ none)
unfolding string_eq
lookup-coded code message = (refl, refl, refl)

handle_error-coded :
    (repr : Dict String Node → String) (has_key : Bool) (status : ℕ) (code message shown : String)
    → (status < 200) ⊎ (300 ≤ status)
    → message ≢ ""
    → handle_error repr has_key
        (record { status_code = status; json = some (object (coded code message)); text = shown })
      ≡ some (
          raise_for has_key status
            (leaf (text message))
            (some (leaf (text code)))
            (coded code message))
unfolding handle_error error_of
handle_error-coded repr has_key status code message shown fails said =
    ground (arith, lookup-coded code message)

-- The class of an error with a message, by its status.
abbrev pub class_of : Bool → ℕ → Node → ErrorInfo → ClientError
class_of has_key status message info =
    if status == 403 && (mentions "auth" message || mentions "key" message || not has_key)
    then auth_error info
    else (if status == 404 then not_found_error info else asb_error info)

raise_for-text :
    (has_key : Bool) (status : ℕ) (message : String) (code : Option Node) (d : Dict String Node)
    → status ≢ 402
    → status ≢ 429
    → let info : ErrorInfo = record {
      message = leaf (text message);
      status_code = some status;
      error_code = code;
      response = d;
    } in
      raise_for has_key status (leaf (text message)) code d
      ≡ class_of has_key status (leaf (text message)) info
unfolding raise_for
raise_for-text has_key status message code d n402 n429 = ground arith

module _ (price : ℕ → String) (encode : Body → String) (repr_body : Body → String)
    (repr : Dict String Node → String) (has_key : Bool) where
  -- What the client raises for an exception of the service.
  abbrev pub raised_for : HttpException → Option ClientError
  raised_for exc =
      handle_error repr has_key
        (received price encode (structured_http_exception_handler repr_body exc))

  raised_for-body :
      (status : ℕ) (d : Body) (headers : Option Headers)
      → has_field "error_code" d ≡ true
      → has_field "message" d ≡ true
      → raised_for (record { status_code = status; detail = body d; headers = headers })
        ≡ handle_error repr has_key (record {
          status_code = status;
          json = some (object (nodes_of price d));
          text = encode d;
        })
  raised_for-body status d headers h k =
      let (code, content) = handler-content repr_body status d headers h k in
      rw (code, content) refl

  -- Where the service refuses a call for its rate limit or for its overage, the client raises a
  -- TypeError, and neither of the errors that it has for them.
  pub raised_for-limits :
      (limit remaining reset_at : ℤ) (cost : ℕ)
      → (raised_for (rate_limit_exceeded limit remaining reset_at)
          ≡ some (type_error "got multiple values for keyword argument"))
        × (raised_for (overage_limit_exceeded cost)
            ≡ some (type_error "got an unexpected keyword argument"))
  unfolding string_eq rate_limit_exceeded overage_limit_exceeded handle_error error_of raise_for
      rate_limit_init overage_init ℕ_discrete
  raised_for-limits limit remaining reset_at cost =
      (rw (raised_for-body 429) refl, rw (raised_for-body 402) refl)

  abbrev pub info_of : ℕ → String → String → ErrorInfo
  info_of status code message = record {
    message = leaf (text message);
    status_code = some status;
    error_code = some (leaf (text code));
    response = coded code message;
  }

  -- What the client raises for a body with a code and a message.
  handled :
      (status : ℕ) (code message shown : String)
      → (status < 200) ⊎ (300 ≤ status)
      → message ≢ ""
      → status ≢ 402
      → status ≢ 429
      → handle_error repr has_key
          (record { status_code = status; json = some (object (coded code message)); text = shown })
        ≡ some (class_of has_key status (leaf (text message)) (info_of status code message))
  handled status code message shown fails said n402 n429 =
      handle_error-coded repr has_key status code message shown fails said
      ∙ ap some (
          raise_for-text has_key status message (some (leaf (text code))) (coded code message) n402
            n429)

  -- An exception of the service with a failing status, neither 402 nor 429, and a message is raised
  -- by the client with this status and message, and a body of a code and the message: with its own
  -- code, where it has one, and with some code where its detail is a text. The
  -- class is the one for authentication where the status is 403 and the message speaks of it or there
  -- is no key, the one for what is not found where it is 404, and else the general one.
  pub raised_for-exception :
      (status : ℕ) (code message : String) (headers : Option Headers)
      → (status < 200) ⊎ (300 ≤ status)
      → message ≢ ""
      → status ≢ 402
      → status ≢ 429
      → let raised = λ (c : String).
        some (class_of has_key status (leaf (text message)) (info_of status c message)) in
        (raised_for (api_error status code message headers []) ≡ raised code)
        × ((found : String) × (raised_for
                (record { status_code = status; detail = Http.text message; headers = headers })
              ≡ raised found))
  unfolding api_error
  raised_for-exception status code message headers fails said n402 n429 =
      let d : Body = ("error_code", str code) ∷ ("message", str message) ∷ [] in
      let (has_code, has_message) = coded_fields code message in
      let (found, same, content) = text_content-coded repr_body status message headers said in
      (
        raised_for-body status d headers has_code has_message
            ∙ handled status code message (encode d) fails said n402 n429,
        (
          found,
          rw (same, content)
              (handled status found message
                (encode (("error_code", str found) ∷ ("message", str message) ∷ [])) fails said n402
                n429),
        ),
      )
