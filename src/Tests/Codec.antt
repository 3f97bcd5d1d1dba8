-- ===== src/Tests/Codec.antt =====
-- A codec for dicts of texts, which stands for `json.dumps` and `json.loads` in the examples: every
-- character is written behind an `a`, and a text ends in a `b`.
use Prim.Native.Char.{Char, char, code}
use native.Mathlib.Decide.{ℕ_discrete}
use asb_cloud_api.Base.{
  ◌≡◌, refl, ap, ◌∙◌, String, Option, none, some, List, [], ◌∷◌, ◌==◌, nat_eq, if◌then◌else◌,
}
use asb_cloud_api.Sessions.{Cookies}

encode_text : String → String → String
encode_text String.[] rest = String.◌∷◌ (char 98 tt) rest
encode_text (String.◌∷◌ c s) rest = String.◌∷◌ (char 97 tt) (String.◌∷◌ c (encode_text s rest))

unfoldable pub dumps : Cookies → String
unfolding encode_text
dumps [] = ""
dumps ((k, v) ∷ cookies) = encode_text k (encode_text v (dumps cookies))

push : Char → List String → List String
push c [] = []
push c (s ∷ texts) = String.◌∷◌ c s ∷ texts

decode : String → List String
unfolding push
decode String.[] = []
decode (String.◌∷◌ mark String.[]) = "" ∷ []
decode (String.◌∷◌ mark (String.◌∷◌ c s)) =
    let inner = push c (decode s) in
    let next = decode (String.◌∷◌ c s) in if code mark == 97 then inner else "" ∷ next

pairs : List String → Option Cookies
pairs [] = some []
pairs (k ∷ []) = none
pairs (k ∷ v ∷ texts) = elim (pairs texts) [ none ↦ none | some cookies ↦ some ((k, v) ∷ cookies) ]

unfoldable pub loads : String → Option Cookies
unfolding pairs decode
loads s = pairs (decode s)

decode-encode_text : (s rest : String) → decode (encode_text s rest) ≡ s ∷ decode rest
unfolding decode encode_text ℕ_discrete
decode-encode_text String.[] String.[] = refl
decode-encode_text String.[] (String.◌∷◌ c s) = refl
decode-encode_text (String.◌∷◌ c s) rest = ap (push c) (decode-encode_text s rest)

decoded : Cookies → List String
decoded [] = []
decoded ((k, v) ∷ cookies) = k ∷ v ∷ decoded cookies

decode-dumps : (cookies : Cookies) → decode (dumps cookies) ≡ decoded cookies
unfolding dumps decoded decode
decode-dumps [] = refl
decode-dumps ((k, v) ∷ cookies) =
    decode-encode_text k (encode_text v (dumps cookies))
    ∙ ap (λ texts. k ∷ texts)
        (decode-encode_text v (dumps cookies) ∙ ap (λ texts. v ∷ texts) (decode-dumps cookies))

pairs-decoded : (cookies : Cookies) → pairs (decoded cookies) ≡ some cookies
unfolding pairs decoded
pairs-decoded [] = refl
pairs-decoded ((k, v) ∷ cookies) = rw (pairs-decoded cookies) refl

pub loads-dumps : (cookies : Cookies) → loads (dumps cookies) ≡ some cookies
unfolding loads
loads-dumps cookies = ap pairs (decode-dumps cookies) ∙ pairs-decoded cookies
