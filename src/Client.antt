-- ===== src/Client.antt =====
-- The Python client: clients/python/asb_client/client.py and exceptions.py. The HTTP library and
-- json come as the response that they give; Python's `str` of a dict is a parameter.
pub mod Errors
pub mod Payload
pub mod Commands
pub mod Lifecycle
pub mod Methods
pub mod Async
pub mod Closed
use asb_cloud_api.Base.{
  ℕ, String, ◌<>◌, Bool, true, false, not, ◌==◌, ◌&&◌, ◌||◌, Option, none, some, List, [], ◌∷◌, leb,
  ltb, contains, nat_eq, string_eq, if◌then◌else◌,
}
use asb_cloud_api.Base.Int.{pos}
use asb_cloud_api.Base.Dict.{Dict, lookup, insert}
use asb_cloud_api.Base.Text.{codes, lower, is_infix_of, str_int}

-- A JSON value that the code looks into no further: `None`, a text, or another value with its
-- truth and its `str`.
pub data Leaf : Type 0 where
  null : Leaf
  text : String → Leaf
  other : Bool → String → Leaf

abbrev pub Fields : Type 0
Fields = Dict String Leaf

pub data Node : Type 0 where
  leaf : Leaf → Node
  dict : Fields → Node

-- `resp.json()`: a dict, or a list, text or number.
pub data Json : Type 0 where
  object : Dict String Node → Json
  not_object : String → Json

-- `json` is `none` where `resp.json()` raises.
pub record Response : Type 0 where
  pub status_code : ℕ
  pub json : Option Json
  pub text : String

-- The attributes of an `AsbError`.
pub record ErrorInfo : Type 0 where
  pub message : Node
  pub status_code : Option ℕ
  pub error_code : Option Node
  pub response : Dict String Node

-- What a call raises: the classes of exceptions.py, or an error of Python's own.
pub data ClientError : Type 0 where
  asb_error auth_error not_found_error rate_limit_error overage_error : ErrorInfo → ClientError
  type_error attribute_error : String → ClientError

abbrev truth : Leaf → Bool
truth null = false
truth (text s) = not (s == "")
truth (other b _) = b

abbrev pub is_true : Node → Bool
is_true (leaf l) = truth l
is_true (dict []) = false
is_true (dict (_ ∷ _)) = true

-- `d.get(k)` where it is true, else what comes after `or`.
abbrev pub get_true : String → Dict String Node → Node → Node
get_true k d rest = elim (lookup k d) [ none ↦ rest | some v ↦ if is_true v then v else rest ]

-- The keywords that `AsbError.__init__` takes, each once.
abbrev pub parameters : List String
parameters = "status_code" ∷ "error_code" ∷ "response" ∷ []

abbrev pub bind_keywords : List String → List String → Option String
bind_keywords seen [] = none
bind_keywords seen (k ∷ keywords) =
    let rest = bind_keywords (k ∷ seen) keywords in
    if contains seen k
    then some "got multiple values for keyword argument"
    else (if contains parameters k then rest else some "got an unexpected keyword argument")

-- `super().__init__(message, status_code=..., error_code=..., **kwargs)`
abbrev super_init :
    (ErrorInfo → ClientError) → String → Node → ℕ → List String → Dict String Node → ClientError
super_init class error_code message status kwargs response =
    elim (bind_keywords [] ("status_code" ∷ "error_code" ∷ kwargs)) [
      | some problem ↦ type_error problem
      | none ↦ class (record {
        message = message;
        status_code = some status;
        error_code = some (leaf (text error_code));
        response = response;
      })
    ]

-- `AsbRateLimitError(message, status_code=..., **kwargs)`; `kwargs` are the names of the others.
unfoldable pub rate_limit_init : Node → ℕ → List String → Dict String Node → ClientError
rate_limit_init = super_init rate_limit_error "RATE_LIMIT_EXCEEDED"

-- `AsbOverageError(message, status_code=..., **kwargs)`
unfoldable pub overage_init : Node → ℕ → List String → Dict String Node → ClientError
overage_init = super_init overage_error "OVERAGE_LIMIT_EXCEEDED"

-- `data.get("detail", data)` has the method `get`.
abbrev detail_has_get : Option Node → Bool
detail_has_get none = true
detail_has_get (some (dict _)) = true
detail_has_get (some (leaf _)) = false

abbrev pub mentions : String → Node → Bool
mentions word (leaf (text s)) = is_infix_of (codes word) (lower (codes s))
mentions word _ = false

abbrev is_text : Node → Bool
is_text (leaf (text _)) = true
is_text _ = false

-- The constructor call for a status.
unfoldable pub raise_for : Bool → ℕ → Node → Option Node → Dict String Node → ClientError
raise_for has_key status message error_code data' =
    let info : ErrorInfo = record {
      message = message;
      status_code = some status;
      error_code = error_code;
      response = data';
    } in
    let known = mentions "auth" message || mentions "key" message || not has_key in
    if status == 403 && not (is_text message)
    then attribute_error "lower"
    else (if status == 403 && known
        then auth_error info
        else (if status == 404
            then not_found_error info
            else (if (status == 429 || status == 402)
                  && not (detail_has_get (lookup "detail" data'))
                then attribute_error "get"
                else (if status == 429
                    then rate_limit_init message status
                        ("error_code" ∷ "limit" ∷ "remaining" ∷ "reset_at" ∷ "response" ∷ []) data'
                    else (if status == 402
                        then overage_init message status ("overage_cost_usd" ∷ "response" ∷ [])
                            data'
                        else asb_error info)))))

-- `data["detail"].get("message", message)` and the error code next to it, or those of the top.
abbrev pub message_and_code : Node → Dict String Node → Option Node → Node × Option Node
message_and_code message data' (some (dict fields)) = (
  elim (lookup "message" fields) [ none ↦ message | some m ↦ leaf m ],
  elim (lookup "error_code" fields) [ none ↦ none | some c ↦ some (leaf c) ],
)
message_and_code message data' (some (leaf _)) = (message, lookup "error_code" data')
message_and_code message data' none = (message, lookup "error_code" data')

-- `repr` is Python's `str` of a dict.
module _ (repr : Dict String Node → String) (has_key : Bool) where
  unfoldable pub error_of : ℕ → Json → ClientError
  error_of status (not_object _) = attribute_error "get"
  error_of status (object data') =
      let first = get_true "message" data' (get_true "detail" data' (leaf (text (repr data')))) in
      let (message, code) = message_and_code first data' (lookup "detail" data') in
      raise_for has_key status message code data'

  -- `resp.text or f"HTTP {status}"`
  abbrev unreadable : Response → Json
  unreadable resp =
      let shown =
        if resp.text == "" then "HTTP " <> str_int (pos resp.status_code) else resp.text in
      object (("message", leaf (text shown)) ∷ [])

  unfoldable pub handle_error : Response → Option ClientError
  handle_error resp =
      let json = elim resp.json as (λ _. Json) [ none ↦ unreadable resp | some json ↦ json ] in
      if leb 200 resp.status_code && ltb resp.status_code 300
      then none
      else some (error_of resp.status_code json)

-- What a call returns: the JSON of the response, the empty dict, or the text under `raw`.
pub data Reply : Type 0 where
  json_reply : Json → Reply
  empty_reply : Reply
  raw_reply : String → Reply

pub data Outcome : Type 0 where
  returned : Reply → Outcome
  raised : ClientError → Outcome

-- What the HTTP library does: it raises `RequestError`, or gives a response.
pub data Sent : Type 0 where
  request_error : String → Sent
  responded : Response → Sent

abbrev network_error : String → ErrorInfo
network_error e = record {
  message = leaf (text ("Network error: " <> e));
  status_code = none;
  error_code = none;
  response = [];
}

reply_of : Response → Reply
reply_of resp =
    let reply : Reply = elim resp.json [
      | none ↦ raw_reply resp.text
      | some json ↦ json_reply json
    ] in
    if resp.status_code == 204 then empty_reply else reply

unfoldable pub request : (Dict String Node → String) → Bool → Sent → Outcome
unfolding reply_of
request repr has_key (request_error e) = raised (asb_error (network_error e))
request repr has_key (responded resp) = elim (handle_error repr has_key resp) [
  | some e ↦ raised e
  | none ↦ returned (reply_of resp)
]

-- `args.base_url or os.getenv("ASB_BASE_URL", ...)` and the like: the first that is a text and not
-- empty.
abbrev pub first_true : Option String → Option String → Option String
first_true none rest = rest
first_true (some s) rest = if s == "" then rest else some s

-- `{**base, **headers}`
abbrev update : Dict String String → Dict String String → Dict String String
update base [] = base
update base ((k, v) ∷ headers) = update (insert k v base) headers

-- `AsbClient.__init__`: the headers of every request. `env` is ASB_API_KEY of the environment.
unfoldable pub default_headers :
    Option String → Option String → Dict String String → Dict String String
default_headers api_key env headers =
    let base : Dict String String = ("User-Agent", "asb-cloud-client/0.1.0 (python)") ∷ [] in
    let merged = update base headers in
    elim (first_true api_key env) [
      | none ↦ merged
      | some key ↦ if key == "" then merged else insert "Authorization" ("Bearer " <> key) merged
    ]
