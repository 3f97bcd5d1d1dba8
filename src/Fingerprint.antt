-- ===== src/Fingerprint.antt =====
-- Fingerprint presets and their validation: asb_api/fingerprint/generator.py. A configured viewport
-- is a list, whose entries `int` may refuse, or some other value.
use asb_cloud_api.Base.{
  ◌≡◌, ◌⊎◌, ℕ, String, ◌||◌, Option, none, some, List, [], ◌∷◌, arith, ◌==◌, string_eq,
  if◌then◌else◌,
}
use asb_cloud_api.Base.Int.{ℤ, pos}
use asb_cloud_api.Base.Dict.{Dict, get_or}
use asb_cloud_api.Http.{Result, ok, err, value_error, ◌>>=◌, bind_parts}

pub data ViewportValue : Type 0 where
  items : List (Option ℤ) → ViewportValue
  other : ViewportValue

-- A preset of the configuration.
pub record Preset : Type 0 where
  pub user_agent : Option (List ℕ)
  pub viewport : Option ViewportValue
  pub webgl_vendor : Option String
  pub canvas : Option String
  pub accept_language : Option String
  pub platform : Option String

pub record Fingerprint : Type 0 where
  pub user_agent : List ℕ
  pub viewport : ℤ × ℤ
  pub webgl_vendor : String
  pub canvas : String
  pub accept_language : Option String
  pub platform : Option String

unfoldable pub bad_viewport {ℓ} : {A : Type ℓ} → Result A
bad_viewport = err (value_error "Fingerprint viewport must contain exactly two integers")

unfoldable pub validate_viewport : ViewportValue → Result (ℤ × ℤ)
validate_viewport (items (some width ∷ some height ∷ [])) = ok (width, height)
validate_viewport _ = bad_viewport

unfoldable pub validate_canvas : String → Result String
validate_canvas value =
    if value == "noise" || (value == "empty" || value == "off")
    then ok value
    else err (value_error "Fingerprint canvas must be one of: noise, empty, off")

abbrev pub empty_preset : Preset
empty_preset = record {
  user_agent = none;
  viewport = none;
  webgl_vendor = none;
  canvas = none;
  accept_language = none;
  platform = none;
}

-- `d.get(k, default)` of an optional field.
abbrev field_or {ℓ} : {A : Type ℓ} → Option A → A → A
field_or none d = d
field_or (some a) d = a

unfoldable pub fingerprint_of : Preset → Result Fingerprint
fingerprint_of cfg =
    validate_viewport (field_or cfg.viewport (items (some (pos 1920) ∷ some (pos 1080) ∷ [])))
    >>= λ viewport. validate_canvas (field_or cfg.canvas "off") >>= λ canvas. ok (record {
      user_agent = field_or cfg.user_agent [];
      viewport = viewport;
      webgl_vendor = field_or cfg.webgl_vendor "";
      canvas = canvas;
      accept_language = cfg.accept_language;
      platform = cfg.platform;
    })

unfoldable pub get_fingerprint : Dict String Preset → String → Result Fingerprint
get_fingerprint presets preset_name =
    fingerprint_of (get_or preset_name (get_or "general" empty_preset presets) presets)

validate_canvas-ok :
    (value result : String)
    → validate_canvas value ≡ ok result
    → (result ≡ "noise") ⊎ ((result ≡ "empty") ⊎ (result ≡ "off"))
unfolding validate_canvas
validate_canvas-ok value result h = ground arith

fingerprint_of-canvas :
    (cfg : Preset) (fp : Fingerprint)
    → fingerprint_of cfg ≡ ok fp
    → (fp.canvas ≡ "noise") ⊎ ((fp.canvas ≡ "empty") ⊎ (fp.canvas ≡ "off"))
unfolding fingerprint_of
fingerprint_of-canvas cfg fp h =
    let (viewport, rest, _) = bind_parts _ (validate_viewport _) h in
    let (canvas, same, valid) = bind_parts _ (validate_canvas _) rest in
    let modes = validate_canvas-ok _ canvas valid in ground (arith, modes, same)

-- A fingerprint that is given out has one of the three canvas modes.
pub get_fingerprint-canvas :
    (presets : Dict String Preset) (name : String) (fp : Fingerprint)
    → get_fingerprint presets name ≡ ok fp
    → (fp.canvas ≡ "noise") ⊎ ((fp.canvas ≡ "empty") ⊎ (fp.canvas ≡ "off"))
unfolding get_fingerprint
get_fingerprint-canvas presets name fp h = fingerprint_of-canvas _ fp h
