-- ===== src/Providers/Registry/Lifecycle.antt =====
-- Brightdata as a provider, asb_api/providers/brightdata.py, and the start and the stop of all
-- providers, asb_api/providers/__init__.py. The answers of Brightdata's API are parameters.
use asb_cloud_api.Base.{
  ◌≡◌, refl, sym, ◌∙◌, ℕ, String, ◌<>◌, Bool, true, false, Option, none, some, List, [], ◌∷◌, ◌++◌,
  ◌==◌, arith, nat_eq, string_eq, if◌then◌else◌,
}
use asb_cloud_api.Http.{Exc, Result, ok, err}
use asb_cloud_api.Providers.{Provider}
use asb_cloud_api.Providers.Registry.{ZoneApi, get_brightdata}

-- `zones or ["residential"]`
abbrev pub zones_of : List String → List String
zones_of [] = "residential" ∷ []
zones_of (zone ∷ zones) = zone ∷ zones

-- The status of a GET of a zone, or what it raises.
abbrev pub StatusApi : Type 0
StatusApi = String → Result ℕ

abbrev pub is_ok : Result ℕ → Bool
is_ok (err e) = false
is_ok (ok status) = status == 200

-- `BrightDataProvider.health_check`
unfoldable pub brightdata_health : StatusApi → String → List String → Bool
brightdata_health api key [] = false
brightdata_health api key (zone ∷ zones) =
    if key == "" then false else is_ok (api ("https://api.brightdata.com/v1/zones" <> "/" <> zone))

-- `class BrightDataProvider`; a lease leaves nothing to release.
unfoldable pub brightdata_provider : ZoneApi → StatusApi → String → List String → Provider
brightdata_provider zone_api status_api key zones = record {
  State = Unit;
  name = "brightdata";
  get_proxy = λ region s. (get_brightdata zone_api region (zones_of zones), s);
  release_proxy = λ proxy s. s;
  health_check = λ s. (ok (brightdata_health status_api key (zones_of zones)), s);
}

-- The `start` or the `stop` of a provider, which may raise.
abbrev pub Hook : Type 0 → Type 0
Hook S = S → Option Exc × S

-- One call in the loop, and the rest of it where that does not raise.
abbrev pub and_then : {S : Type 0} → Option Exc × S → (S → Option Exc × S) → Option Exc × S
and_then (none, s) rest = rest s
and_then (some e, s) rest = (some e, s)

-- `start_all` and `stop_all`: the first call that raises ends the loop. A provider without the
-- method is `none`.
unfoldable pub call_all : {S : Type 0} → List (Option (Hook S)) → S → Option Exc × S
call_all [] s = (none, s)
call_all (none ∷ hooks) s = call_all hooks s
call_all (some hook ∷ hooks) s = and_then (hook s) (call_all hooks)

-- A provider that is healthy has an API key.
brightdata_health-key :
    (api : StatusApi) (key : String) (zones : List String)
    → brightdata_health api key zones ≡ true
    → (key == "") ≡ false
unfolding brightdata_health
brightdata_health-key api key [] healthy = cc healthy
brightdata_health-key api key (zone ∷ zones) healthy = ground arith

and_then_assoc :
    {S : Type 0} (r : Option Exc × S) (f g : S → Option Exc × S)
    → and_then (and_then r f) g ≡ and_then r (λ s. and_then (f s) g)
and_then_assoc (none, s) f g = refl
and_then_assoc (some e, s) f g = refl

and_then_cong :
    {S : Type 0} (r : Option Exc × S) (f g : S → Option Exc × S)
    → ((s : S) → f s ≡ g s)
    → and_then r f ≡ and_then r g
and_then_cong (none, s) f g same = same s
and_then_cong (some e, s) f g same = refl

-- Providers in two groups are called as the first group and, where none of it raises, the second; a
-- provider that raises keeps all after it from being called.
call_all-append :
    {S : Type 0} (hooks others : List (Option (Hook S))) (s : S)
    → call_all (hooks ++ others) s ≡ and_then (call_all hooks s) (call_all others)
unfolding call_all
call_all-append [] others s = refl
call_all-append (none ∷ hooks) others s = call_all-append hooks others s
call_all-append (some hook ∷ hooks) others s =
    and_then_cong (hook s) (call_all (hooks ++ others)) _ (call_all-append hooks others)
    ∙ sym (and_then_assoc (hook s) (call_all hooks) (call_all others))
