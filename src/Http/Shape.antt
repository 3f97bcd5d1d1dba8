-- ===== src/Http/Shape.antt =====
-- Every error response has the standard shape.
use asb_cloud_api.Base.Text.{codes, lower}
use asb_cloud_api.Base.{
  Option, ℕ, nat_eq, if◌then◌else◌, ◌≡◌, refl, ap, ◌≢◌, Bool, ◌&&◌, false, [], ◌∷◌, String, some,
  arith, true, ◌==◌, string_eq,
}
use asb_cloud_api.Base.Dict.{has_key, lookup, lookup-insert}
use asb_cloud_api.Http.{
  Body, Headers, Value, str, Detail, text, body, HttpException, body_content, text_content,
  content_of, structured_http_exception_handler, with_default, find_code, string_to_code,
  detail_text,
}

has_key-with_default :
    (j k : String) (v : Value) (d : Body)
    → has_key j (with_default k v d) ≡ (if j == k then true else has_key j d)
unfolding with_default
has_key-with_default j k v d = ground (arith, lookup-insert j k v d)

with_default-eq_self :
    (k : String) (v : Value) (d : Body) → has_key k d ≡ true → with_default k v d ≡ d
unfolding with_default
with_default-eq_self k v d h = ground arith

-- A text for which the table has no code is an internal error, or a bad request under status 404.
unknown_text :
    (status : ℕ) (t : String)
    → find_code string_to_code (lower (codes (detail_text t))) "INTERNAL_ERROR" ≡ "INTERNAL_ERROR"
    → lookup "error_code" (text_content status t)
      ≡ some (str (if status == 404 then "BAD_REQUEST" else "INTERNAL_ERROR"))
unfolding text_content string_eq
unknown_text status t h = rw h (ground arith)

module _ (repr : Body → String) where
  body_content-shape :
      (d : Body)
      → (has_key "error_code" (body_content repr d) ≡ true)
        × (has_key "message" (body_content repr d) ≡ true)
  unfolding body_content
  body_content-shape d = ground (
    arith,
    has_key-with_default "error_code" "error_code" (str "INTERNAL_ERROR") d,
    has_key-with_default "error_code" "message"
        (str (repr (with_default "error_code" (str "INTERNAL_ERROR") d)))
        (with_default "error_code" (str "INTERNAL_ERROR") d),
    has_key-with_default "message" "message"
        (str (repr (with_default "error_code" (str "INTERNAL_ERROR") d)))
        (with_default "error_code" (str "INTERNAL_ERROR") d),
  )

  content_of-shape :
      (status : ℕ) (detail : Detail)
      → (has_key "error_code" (content_of repr status detail) ≡ true)
        × (has_key "message" (content_of repr status detail) ≡ true)
  unfolding content_of text_content string_eq
  content_of-shape status (text t) = (refl, refl)
  content_of-shape status (body d) = body_content-shape d

  -- Whatever the exception, the response keeps its status, and its body has an error code and a
  -- message.
  pub handler-shape :
      (exc : HttpException)
      → let response = structured_http_exception_handler repr exc in
        (response.status_code ≡ exc.status_code)
        × (has_key "error_code" response.content ≡ true)
        × (has_key "message" response.content ≡ true)
  unfolding structured_http_exception_handler
  handler-shape exc = (
    refl,
    (content_of-shape exc.status_code exc.detail).0,
    (content_of-shape exc.status_code exc.detail).1,
  )

  -- A dict that has both fields is sent as it is, with its status.
  pub handler-content :
      (status : ℕ) (d : Body) (headers : Option Headers)
      → has_key "error_code" d ≡ true
      → has_key "message" d ≡ true
      → let response =
          structured_http_exception_handler repr
            (record { status_code = status; detail = body d; headers = headers }) in
        (response.status_code ≡ status) × (response.content ≡ d)
  unfolding structured_http_exception_handler content_of body_content
  handler-content status d headers h k = (
    refl,
    rw (
      with_default-eq_self "error_code" (str "INTERNAL_ERROR") d h,
      with_default-eq_self "message" (str (repr d)) d k,
    ),
  )

  -- A dict that has both fields is sent as it is, with its status and its headers.
  pub handler-eq_body :
      (status : ℕ) (d : Body) (headers : Headers)
      → has_key "error_code" d ≡ true
      → has_key "message" d ≡ true
      → structured_http_exception_handler repr
          (record { status_code = status; detail = body d; headers = some headers })
        ≡ record { status_code = status; content = d; headers = headers }
  unfolding structured_http_exception_handler content_of body_content
  handler-eq_body status d headers h k = rw (
    with_default-eq_self "error_code" (str "INTERNAL_ERROR") d h,
    with_default-eq_self "message" (str (repr d)) d k,
  )

detail_text-eq_self : (message : String) → message ≢ "" → detail_text message ≡ message
detail_text-eq_self message said = ground arith

either_message :
    (unknown : Bool) (shown message : String)
    → shown ≡ message
    → message ≢ ""
    → (if unknown then (if shown == "" then "Resource not found" else shown) else shown) ≡ message
either_message true shown message same said = ground arith
either_message false shown message same said = same

-- A text for a detail becomes a body with that text as its message, and a code for it.
pub text_content-coded :
    (repr : Body → String) (status : ℕ) (message : String) (headers : Option Headers)
    → message ≢ ""
    → let response =
        structured_http_exception_handler repr
          (record { status_code = status; detail = text message; headers = headers }) in
      (code : String) × (response.status_code ≡ status)
      × (response.content ≡ ("error_code", str code) ∷ ("message", str message) ∷ [])
unfolding structured_http_exception_handler content_of text_content
text_content-coded repr status message headers said =
    let shown = detail_text message in
    let found = find_code string_to_code (lower (codes shown)) "INTERNAL_ERROR" in
    let unknown = status == 404 && found == "INTERNAL_ERROR" in
    let code = if unknown then "BAD_REQUEST" else found in
    (
      code,
      refl,
      ap (λ (m : String). ("error_code", str code) ∷ ("message", str m) ∷ [])
          (either_message unknown shown message (detail_text-eq_self message said) said),
    )
