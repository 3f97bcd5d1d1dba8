-- ===== src/Providers/Registry/Startup.antt =====
-- What the registry holds after its configuration, and which provider the service starts with.
use asb_cloud_api.Base.{
  ◌≡◌, refl, ◌∙◌, inl, inr, String, ◌==◌, ◌||◌, Option, none, some, [], ◌∷◌, arith, Bool-cases,
  string_eq, if◌then◌else◌,
}
use asb_cloud_api.Base.Dict.{Dict, lookup, lookup-insert, NodupKeys}
use asb_cloud_api.Http.{Result, ok, err, other_error}
use asb_cloud_api.Providers.Registry.{
  ProviderCfg, Entry, registered, add_entry, initialize_from_config, pick, choose,
}

-- The first value there is.
abbrev pub first_some {ℓ} : {A : Type ℓ} → Option A → Option A → Option A
first_some none b = b
first_some (some a) b = some a

abbrev pub section_entry : String → Option ProviderCfg → Option Entry
section_entry name none = none
section_entry name (some cfg) = registered name cfg

lookup-add_entry :
    (name key : String) (entry : Option Entry) (providers : Dict String Entry)
    → lookup name (add_entry key entry providers)
      ≡ (if name == key then first_some entry (lookup name providers) else lookup name providers)
lookup-add_entry name key none providers = ground arith
lookup-add_entry name key (some entry) providers =
    ground (arith, lookup-insert name key entry providers)

-- The registry holds exactly what the enabled sections of known names register.
lookup-initialize_from_config :
    (name : String) (config : Dict String ProviderCfg) (providers : Dict String Entry)
    → NodupKeys config
    → lookup name (initialize_from_config config providers)
      ≡ first_some (section_entry name (lookup name config)) (lookup name providers)
unfolding initialize_from_config
lookup-initialize_from_config name [] providers nodup = refl
lookup-initialize_from_config name ((key, cfg) ∷ config) providers nodup =
    let rest = initialize_from_config config (add_entry key (registered key cfg) providers) in
    let (absent, nodup') = nodup in
    rw
      (
        lookup-initialize_from_config name config (add_entry key (registered key cfg) providers)
            nodup',
        lookup-add_entry name key (registered key cfg) providers,
      )
      (elim (Bool-cases (name == key)) [
        | inr differ ↦ rw differ refl
        | inl same ↦ let e : name ≡ key = ground arith in rw same (rw (e, absent) refl)
      ])

-- The fallback that startup looks for.
abbrev pub fallback_entry : Dict String ProviderCfg → String → String → Option Entry
fallback_entry config primary_name fallback_name =
    if fallback_name == "" || fallback_name == primary_name
    then none
    else section_entry fallback_name (lookup fallback_name config)

abbrev pub chosen : Option Entry → Option Entry → Option Entry → Result (Entry × Option Entry)
chosen (some primary) fallback null_entry = ok (primary, fallback)
chosen none fallback null_entry = elim (first_some fallback null_entry) [
  | some entry ↦ ok (entry, none)
  | none ↦ err (other_error "KeyError")
]

pick-chosen : (a b c : Option Entry) → pick a b c ≡ chosen a b c
unfolding pick
pick-chosen (some a) b c = refl
pick-chosen none (some b) c = refl
pick-chosen none none (some c) = refl
pick-chosen none none none = refl

first_some-none : (a : Option Entry) → first_some a none ≡ a
first_some-none none = refl
first_some-none (some a) = refl

-- The service starts with the primary and the fallback of the configuration where both are there and
-- differ; where the primary is missing or not enabled, with the fallback alone, or else with null;
-- and it does not start where null is not enabled either.
pub choose-initialize :
    (config : Dict String ProviderCfg) (primary_name fallback_name : String)
    → NodupKeys config
    → choose (initialize_from_config config []) primary_name fallback_name
      ≡ chosen
          (section_entry primary_name (lookup primary_name config))
          (fallback_entry config primary_name fallback_name)
          (section_entry "null" (lookup "null" config))
unfolding choose
choose-initialize config primary_name fallback_name nodup =
    let providers = initialize_from_config config [] in
    let found : (name : String) → lookup name providers ≡ section_entry name (lookup name config) =
      λ name.
        lookup-initialize_from_config name config [] nodup
        ∙ first_some-none (section_entry name (lookup name config)) in
    rw (found primary_name, found fallback_name, found "null")
      (pick-chosen (section_entry primary_name (lookup primary_name config))
        (fallback_entry config primary_name fallback_name)
        (section_entry "null" (lookup "null" config)))
