-- ===== src/Startup/Served.antt =====
-- What the routes hold after a startup that succeeded, and what a shutdown stops then.
use asb_cloud_api.Base.{
  arith, ◌≡◌, refl, sym, ap, ◌∙◌, String, Bool, true, false, ◌&&◌, Option, none, some, [], ◌∷◌,
  if◌then◌else◌,
}
use asb_cloud_api.Http.{Exc}
use asb_cloud_api.Providers.Registry.Lifecycle.{and_then}
use asb_cloud_api.Startup.Wiring.{
  Parts, StartupConfig, Backend, in_memory, in_postgres, Object, object_of, default, SessionObject,
  LimiterObject, Wired, nothing_wired, database_dsn, wire_postgres, wire_in_memory, State,
  open_database, then_set, open_registry, open_checker, open_workers, wire, startup_with, startup,
  if_set, stops,
}

abbrev pub backend_of : Option String → Backend
backend_of none = in_memory
backend_of (some _) = in_postgres

abbrev pub is_postgres : Backend → Bool
is_postgres in_memory = false
is_postgres in_postgres = true

-- All stores are of one kind. The scrape routes and the usage route count on one tracker, on which the
-- limiter in Postgres looks too; the scrape and the session routes share the sessions, and the
-- webhooks the keys where billing is enabled.
abbrev pub Shares : StartupConfig → Backend → Wired → Type 0
Shares cfg backend w =
    (keys : Object) × (usage : Object) × (limiter : LimiterObject) × (sessions : SessionObject)
    × (w.key_store ≡ some keys)
    × (keys.backend ≡ backend)
    × (w.webhook_store ≡ (if cfg.billing_enabled && is_postgres backend then some keys else none))
    × (w.usage_tracker ≡ some usage)
    × (usage.backend ≡ backend)
    × (w.usage_context ≡ some (usage, cfg.rate_limits))
    × (w.rate_limiter ≡ some limiter)
    × (limiter.object.backend ≡ backend)
    × (limiter.usage_tracker ≡ (if is_postgres backend then some usage else none))
    × (w.session_store ≡ some sessions)
    × (w.scrape_session_store ≡ some sessions)
    × (sessions.object.backend ≡ backend)

pub and_then-none :
    {S : Type 0} (first : Option Exc × S) (rest : S → Option Exc × S) (last : S)
    → and_then first rest ≡ (none, last)
    → (mid : S) × (first ≡ (none, mid)) × (rest mid ≡ (none, last))
and_then-none (none, mid) rest last e = (mid, refl, e)
and_then-none {S} (some x, mid) rest last e = cc (ap (λ (r : Option Exc × S). r.0) e)

-- What is wired before the stores are.
abbrev parts_wired : Option String → Wired
parts_wired dsn = record nothing_wired {
  db = is_postgres (backend_of dsn);
  provider_registry = true;
  health_checker = true;
  worker_pool = true;
  scrape_pool = true;
}

abbrev wired_by : StartupConfig → Option String → Wired → Wired
wired_by cfg none w = record (wire_in_memory cfg w) { health_context = true }
wired_by cfg (some _) w = record (wire_postgres cfg w) { health_context = true }

wired_by-Shares :
    (cfg : StartupConfig) (dsn : Option String)
    → Shares cfg (backend_of dsn) (wired_by cfg dsn (parts_wired dsn))
unfolding wire_in_memory wire_postgres
wired_by-Shares cfg none = (
  object_of in_memory 0,
  object_of in_memory 3,
  record { object = object_of in_memory 1; limits = cfg.rate_limits; usage_tracker = none },
  record {
    object = object_of in_memory 2;
    encryption_key = cfg.encryption_key;
    ttl_seconds = default 300 cfg.session_ttl_seconds;
  },
  refl,
  refl,
  ground arith,
  refl,
  refl,
  refl,
  refl,
  refl,
  refl,
  refl,
  refl,
  refl,
)
wired_by-Shares cfg (some _) = (
  object_of in_postgres 0,
  object_of in_postgres 1,
  record {
    object = object_of in_postgres 2;
    limits = cfg.rate_limits;
    usage_tracker = some (object_of in_postgres 1);
  },
  record {
    object = object_of in_postgres 3;
    encryption_key = cfg.encryption_key;
    ttl_seconds = default 300 cfg.session_ttl_seconds;
  },
  refl,
  refl,
  ground arith,
  refl,
  refl,
  refl,
  refl,
  refl,
  refl,
  refl,
  refl,
  refl,
)

module _ {W : Type 0} (parts : Parts W) (cfg : StartupConfig) where
  then_set-none :
      (first : Option Exc × W) (w w' : Wired) (set : Wired → Wired) (s : W)
      → then_set parts cfg first w set ≡ (none, (w', s))
      → w' ≡ set w
  then_set-none (none, mid) w w' set s e = ap (λ (r : Option Exc × State parts cfg). r.1.0) (sym e)
  then_set-none (some x, mid) w w' set s e = cc (ap (λ (r : Option Exc × State parts cfg). r.0) e)

  open_database-none :
      (dsn : Option String) (w w' : Wired) (s s' : W)
      → open_database parts cfg dsn (w, s) ≡ (none, (w', s'))
      → w' ≡ (elim dsn as (λ _. Wired) [ none ↦ w | some _ ↦ record w { db = true } ])
  unfolding open_database
  open_database-none none w w' s s' e = ap (λ (r : Option Exc × State parts cfg). r.1.0) (sym e)
  open_database-none (some dsn) w w' s s' e =
      ap (λ (r : Option Exc × State parts cfg). r.1.0) (sym e)

  wire-none :
      (dsn : Option String) (w w' : Wired) (s s' : W)
      → wire parts cfg dsn (w, s) ≡ (none, (w', s'))
      → w' ≡ wired_by cfg dsn w
  unfolding wire
  wire-none none w w' s s' e = ap (λ (r : Option Exc × State parts cfg). r.1.0) (sym e)
  wire-none (some dsn) w w' s s' e = ap (λ (r : Option Exc × State parts cfg). r.1.0) (sym e)

  all_parts :
      (dsn : Option String)
      → record (elim dsn as (λ _. Wired) [
        | none ↦ nothing_wired
        | some _ ↦ record nothing_wired { db = true }
      ]) { provider_registry = true; health_checker = true; worker_pool = true; scrape_pool = true }
        ≡ parts_wired dsn
  all_parts none = refl
  all_parts (some dsn) = refl

  stops_of :
      (dsn : Option String)
      → stops parts cfg (wired_by cfg dsn (parts_wired dsn))
        ≡ some parts.stop_checker
          ∷ some parts.stop_workers
          ∷ some parts.stop_providers
          ∷ if_set parts cfg (is_postgres (backend_of dsn)) parts.disconnect
          ∷ []
  unfolding wire_in_memory wire_postgres
  stops_of none = refl
  stops_of (some dsn) = refl

  startup_with-wired :
      (dsn : Option String) (s s' : W) (w : Wired)
      → startup_with parts cfg dsn (nothing_wired, s) ≡ (none, (w, s'))
      → w ≡ wired_by cfg dsn (parts_wired dsn)
  unfolding startup_with open_registry open_checker open_workers
  startup_with-wired dsn s s' w e =
      let (m1, opened, rest1) =
        and_then-none (open_database parts cfg dsn (nothing_wired, s)) _ _ e in
      let (m2, registry, rest2) = and_then-none (open_registry parts cfg m1) _ _ rest1 in
      let (m3, checker, rest3) = and_then-none (open_checker parts cfg m2) _ _ rest2 in
      let (m4, workers, rest4) = and_then-none (open_workers parts cfg m3) _ _ rest3 in
      let at1 = open_database-none dsn nothing_wired m1.0 s m1.1 opened in
      let at2 =
        then_set-none (parts.start_providers m1.1) m1.0 m2.0
          (λ v. record v { provider_registry = true }) m2.1 registry in
      let at3 =
        then_set-none (parts.start_checker m2.1) m2.0 m3.0 (λ v. record v { health_checker = true })
          m3.1 checker in
      let at4 =
        then_set-none (parts.start_workers m3.1) m3.0 m4.0
          (λ v. record v { worker_pool = true; scrape_pool = true }) m4.1 workers in
      wire-none dsn m4.0 w m4.1 s' rest4
      ∙ ap (wired_by cfg dsn) (
          at4
          ∙ ap (λ (v : Wired). record v { worker_pool = true; scrape_pool = true })
              (at3
                ∙ ap (λ (v : Wired). record v { health_checker = true })
                    (at2 ∙ ap (λ (v : Wired). record v { provider_registry = true }) at1))
          ∙ all_parts dsn)

  -- After a startup that succeeded the routes share stores of one kind, in Postgres exactly where
  -- there is a URL of a database, and a shutdown stops the health checker, the workers, the providers
  -- and, where there is one, the database.
  pub startup-Shares :
      (s s' : W) (w : Wired)
      → startup parts cfg (nothing_wired, s) ≡ (none, (w, s'))
      → Shares cfg (backend_of (database_dsn cfg)) w
        × (stops parts cfg w
            ≡ some parts.stop_checker
              ∷ some parts.stop_workers
              ∷ some parts.stop_providers
              ∷ if_set parts cfg (is_postgres (backend_of (database_dsn cfg))) parts.disconnect
              ∷ [])
  unfolding startup
  startup-Shares s s' w e =
      let dsn = database_dsn cfg in
      let wired = startup_with-wired dsn s s' w e in
      rw wired (wired_by-Shares cfg dsn, stops_of dsn)
