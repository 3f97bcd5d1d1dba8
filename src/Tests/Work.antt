-- ===== src/Tests/Work.antt =====
-- Sessions and their routes at concrete inputs.
use Prim.Native.Char.{char}
use asb_cloud_api.Tests.Codec.{dumps, loads, loads-dumps}
use asb_cloud_api.Base.{
  ◌≡◌, refl, ◌≢◌, ap, String, true, false, Option, none, some, [], ◌∷◌, arith, string_eq, ◌==◌,
}
use asb_cloud_api.Base.Dict.{insert}
use asb_cloud_api.Http.{err}
use asb_cloud_api.Sessions.{Cookies, Fernet, plain, Session, Store, load_cookies, load_with}
use asb_cloud_api.Sessions.{Sessions}
use asb_cloud_api.Sessions.Expiry.{IsFaithful}
use asb_cloud_api.Sessions.Routes.{not_owner, get_session, delete_session}
use asb_cloud_api.Sessions.Routes.Ownership.{routes_isolate}

-- A stand-in for Fernet: a mark in front.
fernet_decrypt : String → Option String
fernet_decrypt String.[] = none
fernet_decrypt (String.◌∷◌ c s) = some s

abbrev fernet : Fernet
fernet = record { encrypt = λ s. String.◌∷◌ (char 42 tt) s; decrypt = fernet_decrypt }

abbrev store : Store
store = record {
  json = record { dumps = dumps; loads = loads };
  fernet = some fernet;
  ttl_seconds = 60;
}

store-IsFaithful : IsFaithful store
unfolding fernet_decrypt
store-IsFaithful = record {
  loads-dumps = loads-dumps;
  decrypt-encrypt = λ f h s. let same : f ≡ fernet = cc h in rw same refl;
}

abbrev one_cookie : Cookies
one_cookie = ("sid", "1") ∷ []

abbrev session : Session
session = record {
  session_id = "sess_a";
  key_id = "key_a";
  region = "us";
  fingerprint = none;
  cookies = plain one_cookie;
  created_at = 0;
  last_used = 0;
  request_count = 3;
  expires_at = 60000000;
}

abbrev sessions : Sessions
sessions = ("sess_a", session) ∷ []

b-ne-a : ◌≢◌ {A = String} "sess_b" "sess_a"
unfolding string_eq
b-ne-a e = let same : false ≡ true = ap (λ (s : String). s == "sess_a") e in cc same

a-ne-b : ◌≢◌ {A = String} "key_a" "key_b"
unfolding string_eq
a-ne-b e = let same : false ≡ true = ap (λ (s : String). s == "key_b") e in cc same

routes_isolate_example :
    let sessions' = insert "sess_a" (record session { last_used = 8 }) sessions in
    (get_session (some store) 7 8 "sess_a" "key_b" sessions ≡ (err not_owner, sessions'))
    × (delete_session (some store) 7 8 "sess_a" "key_b" sessions ≡ (err not_owner, sessions'))
unfolding string_eq load_cookies load_with
routes_isolate_example =
    routes_isolate store 7 8 "sess_a" "key_b" session one_cookie sessions refl (omega arith) refl
      a-ne-b
