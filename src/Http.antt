-- ===== src/Http.antt =====
-- Exceptions, responses and the error handlers of asb_api/api/errors.py, with the two limit
-- exceptions of asb_api/api/rate_limiter.py. Prices are US dollars in thousandths.
pub mod Shape
use asb_cloud_api.Base.{
  ◌≡◌, refl, ℕ, String, ◌<>◌, Option, none, some, List, [], ◌∷◌, ◌==◌, nat_eq, string_eq,
  if◌then◌else◌, ◌&&◌,
}
use asb_cloud_api.Base.Int.{ℤ}
use asb_cloud_api.Base.Dict.{Dict, has_key, insert}
use asb_cloud_api.Base.Text.{codes, lower, is_infix_of, str_int}

-- A value in a JSON body.
pub data Value : Type 0 where
  str : String → Value
  num : ℤ → Value
  mills : ℕ → Value

abbrev pub Body : Type 0
Body = Dict String Value

abbrev pub Headers : Type 0
Headers = Dict String String

-- `exc.detail`: a text, or a dict.
pub data Detail : Type 0 where
  text : String → Detail
  body : Body → Detail

pub record HttpException : Type 0 where
  pub status_code : ℕ
  pub detail : Detail
  pub headers : Option Headers

-- The classes of exceptions that the code tells apart.
pub data Exc : Type 0 where
  http : HttpException → Exc
  pool_exhausted provider_error runtime_error value_error other_error : String → Exc

pub data Result {ℓ} (A : Type ℓ) : Type ℓ where
  ok : A → Result A
  err : Exc → Result A

-- `str(e)`; the code takes it of the exceptions with a message.
unfoldable pub message_of : Exc → String
message_of (http e) = elim e.detail [ text t ↦ t | body _ ↦ "" ]
message_of (pool_exhausted m) = m
message_of (provider_error m) = m
message_of (runtime_error m) = m
message_of (value_error m) = m
message_of (other_error m) = m

infixl 5 ◌>>=◌
-- The first exception ends a chain.
abbrev pub ◌>>=◌ {ℓ κ} : {A : Type ℓ} {B : Type κ} → Result A → (A → Result B) → Result B
m >>= k = elim m [ ok a ↦ k a | err e ↦ err e ]

-- The two parts of a chain that succeeded, the second first.
pub bind_parts {ℓ κ} :
    {B : Type κ} {A : Type ℓ} {last : B} (k : A → Result B) (m : Result A)
    → (m >>= k) ≡ ok last
    → (mid : A) × (k mid ≡ ok last) × (m ≡ ok mid)
bind_parts k (err e) done = cc
bind_parts k (ok mid) done = (mid, done, refl)

-- `{**a, **b}`
abbrev merge : Body → Body → Body
merge a [] = a
merge a ((k, v) ∷ b) = merge (insert k v a) b

-- `APIError(status_code, error_code, message, headers, **extra)`
unfoldable pub api_error : ℕ → String → String → Option Headers → Body → HttpException
api_error status error_code message headers extra = record {
  status_code = status;
  detail = body (merge (("error_code", str error_code) ∷ ("message", str message) ∷ []) extra);
  headers = headers;
}

-- `raise APIError(...)` with no headers and no extra fields.
abbrev pub raise_api_error {ℓ} : {A : Type ℓ} → ℕ → String → String → Result A
raise_api_error status error_code message = err (http (api_error status error_code message none []))

-- `raise HTTPException(status, "text")`
abbrev pub raise_http {ℓ} : {A : Type ℓ} → ℕ → String → Result A
raise_http status message =
    err (http (record { status_code = status; detail = text message; headers = none }))

unfoldable pub rate_limit_exceeded : ℤ → ℤ → ℤ → HttpException
rate_limit_exceeded limit remaining reset_at = record {
  status_code = 429;
  detail = body (
      ("error_code", str "RATE_LIMIT_EXCEEDED")
      ∷ ("message", str "Rate limit reached")
      ∷ ("limit", num limit)
      ∷ ("remaining", num remaining)
      ∷ ("reset_at", num reset_at)
      ∷ []);
  headers = some (
      ("X-RateLimit-Limit", str_int limit)
      ∷ ("X-RateLimit-Remaining", str_int remaining)
      ∷ ("X-RateLimit-Reset", str_int reset_at)
      ∷ []);
}

unfoldable pub overage_limit_exceeded : ℕ → HttpException
overage_limit_exceeded overage_cost_usd = record {
  status_code = 402;
  detail = body (
      ("error_code", str "OVERAGE_LIMIT_EXCEEDED")
      ∷ ("message", str "Usage limit exceeded. Upgrade or pay overage.")
      ∷ ("overage_cost_usd", mills overage_cost_usd)
      ∷ []);
  headers = none;
}

-- `_STRING_TO_CODE`
abbrev string_to_code : Dict String String
string_to_code =
    ("missing authorization", "MISSING_AUTH")
    ∷ ("invalid api key", "INVALID_API_KEY")
    ∷ ("service not initialized", "SERVICE_NOT_INITIALIZED")
    ∷ ("session store not initialized", "SERVICE_NOT_INITIALIZED")
    ∷ ("session not found", "SESSION_NOT_FOUND")
    ∷ ("usage tracker not initialized", "SERVICE_NOT_INITIALIZED")
    ∷ ("rate limit", "RATE_LIMIT_EXCEEDED")
    ∷ ("overage", "OVERAGE_LIMIT_EXCEEDED")
    ∷ []

-- The loop that stops at the first key found in the text.
unfoldable find_code : Dict String String → List ℕ → String → String
find_code [] lowered default = default
find_code ((key, code) ∷ rest) lowered default =
    let more = find_code rest lowered default in
    if is_infix_of (codes key) lowered then code else more

pub record JsonResponse : Type 0 where
  pub status_code : ℕ
  pub content : Body
  pub headers : Headers

-- `exc.detail or "Internal error"`
abbrev detail_text : String → String
detail_text detail = if detail == "" then "Internal error" else detail

text_content : ℕ → String → Body
text_content status detail =
    let detail_str = detail_text detail in
    let error_code = find_code string_to_code (lower (codes detail_str)) "INTERNAL_ERROR" in
    let unknown = status == 404 && error_code == "INTERNAL_ERROR" in
    let code = if unknown then "BAD_REQUEST" else error_code in
    let message =
      if unknown
      then (if detail_str == "" then "Resource not found" else detail_str)
      else detail_str in
    ("error_code", str code) ∷ ("message", str message) ∷ []

-- `if k not in d: d[k] = v`
with_default : String → Value → Body → Body
with_default k v d = if has_key k d then d else insert k v d

-- `repr` is Python's `str` of a dict.
module _ (repr : Body → String) where
  body_content : Body → Body
  body_content detail =
      let coded = with_default "error_code" (str "INTERNAL_ERROR") detail in
      with_default "message" (str (repr coded)) coded

  content_of : ℕ → Detail → Body
  content_of status (text detail) = text_content status detail
  content_of status (body detail) = body_content detail

  pub structured_http_exception_handler : HttpException → JsonResponse
  structured_http_exception_handler exc = record {
    status_code = exc.status_code;
    content = content_of exc.status_code exc.detail;
    headers = elim exc.headers [ none ↦ [] | some headers ↦ headers ];
  }

-- One entry of `exc.errors()`.
pub record ValidationError : Type 0 where
  pub loc : Option (List String)
  pub msg : Option String

join_dots : List String → String
join_dots [] = ""
join_dots (x ∷ []) = x
join_dots (x ∷ y ∷ xs) = x <> ("." <> join_dots (y ∷ xs))

validation_message : List ValidationError → String
validation_message [] = "Invalid request payload"
validation_message (first ∷ _) =
    let loc = join_dots (elim first.loc [ none ↦ [] | some xs ↦ xs ]) in
    let msg : String = elim first.msg [ none ↦ "Invalid request" | some m ↦ m ] in
    if loc == "" then msg else loc <> (": " <> msg)

unfoldable pub validation_exception_handler : List ValidationError → JsonResponse
unfolding validation_message join_dots
validation_exception_handler errors = record {
  status_code = 400;
  content = ("error_code", str "BAD_REQUEST") ∷ ("message", str (validation_message errors)) ∷ [];
  headers = [];
}
