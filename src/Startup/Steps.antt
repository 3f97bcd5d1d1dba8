-- ===== src/Startup/Steps.antt =====
-- The steps of a startup that succeeded and of a shutdown whose stops raise nothing, over any parts.
use asb_cloud_api.Base.{
  ◌≡◌, refl, sym, ap, ◌∙◌, String, Bool, true, false, Option, none, some, List, [], ◌∷◌,
}
use asb_cloud_api.Http.{Exc}
use asb_cloud_api.Providers.Registry.Lifecycle.{and_then}
use asb_cloud_api.Startup.{Stop, shutdown}
use asb_cloud_api.Startup.Wiring.{
  Parts, StartupConfig, Wired, nothing_wired, State, open_database, then_set, open_registry,
  open_checker, open_workers, wire, startup_with, if_set,
}
use asb_cloud_api.Startup.Served.{and_then-none}

-- A log that is empty is of stops that each raised nothing.
pub shutdown-none :
    {W : Type 0} (stop : Stop W) (rest : List (Option (Stop W))) (s last : W)
    → shutdown (some stop ∷ rest) s ≡ ([], last)
    → ((stop s).0 ≡ none) × (shutdown rest (stop s).1 ≡ ([], last))
unfolding shutdown
shutdown-none {W} stop rest s last e = by_raised (stop s).0 refl
  where
    by_raised :
        (raised : Option Exc)
        → (stop s).0 ≡ raised
        → ((stop s).0 ≡ none) × (shutdown rest (stop s).1 ≡ ([], last))
    by_raised none at = (at, rw at at e)
    by_raised (some x) at = cc (ap (λ (r : List Exc × W). r.0) (rw at at e))

pub and_then-keeps :
    {W A : Type 0} (f : W → A) (first : Option Exc × W) (rest : W → Option Exc × W)
    → ((s : W) → f (rest s).1 ≡ f s)
    → f (and_then first rest).1 ≡ f first.1
and_then-keeps f (none, s) rest keeps = keeps s
and_then-keeps f (some x, s) rest keeps = refl

then_set-state :
    {W : Type 0} (p : Parts W) (cfg : StartupConfig) (first : Option Exc × W) (w w' : Wired)
    (set : Wired → Wired) (s : W)
    → then_set p cfg first w set ≡ (none, (w', s))
    → first.1 ≡ s
then_set-state p cfg (none, mid) w w' set s e = ap (λ (r : Option Exc × State p cfg). r.1.1) e
then_set-state p cfg (some x, mid) w w' set s e = ap (λ (r : Option Exc × State p cfg). r.1.1) e

pub shutdown-three :
    {W : Type 0} (first second third : Stop W) (rest : List (Option (Stop W))) (s last : W)
    → shutdown (some first ∷ some second ∷ some third ∷ rest) s ≡ ([], last)
    → ((second (first s).1).0 ≡ none)
      × (shutdown rest (third (second (first s).1).1).1 ≡ ([], last))
shutdown-three first second third rest s last e =
    let (_, rest1) = shutdown-none first (some second ∷ some third ∷ rest) s last e in
    let (at, rest2) = shutdown-none second (some third ∷ rest) (first s).1 last rest1 in
    let (_, rest3) = shutdown-none third rest (second (first s).1).1 last rest2 in (at, rest3)

pub shutdown-last :
    {W A : Type 0} (p : Parts W) (cfg : StartupConfig) (set : Bool) (stop : Stop W) (f : W → A)
    (s last : W)
    → ((u : W) → f (stop u).1 ≡ f u)
    → shutdown (if_set p cfg set stop ∷ []) s ≡ ([], last)
    → f last ≡ f s
unfolding shutdown
shutdown-last {W} p cfg false stop f s last keeps e = ap (λ (r : List Exc × W). f r.1) (sym e)
shutdown-last {W} p cfg true stop f s last keeps e =
    let (_, rest) = shutdown-none stop [] s last e in
    ap (λ (r : List Exc × W). f r.1) (sym rest) ∙ keeps s

-- The states of the parts between the steps of a startup that succeeded.
pub startup_with-steps :
    {W : Type 0} (p : Parts W) (cfg : StartupConfig) (dsn : Option String) (w : Wired) (s s' : W)
    → startup_with p cfg dsn (nothing_wired, s) ≡ (none, (w, s'))
    → (w1 : Wired) × (w4 : Wired) × (s1 : W) × (s2 : W) × (s3 : W) × (s4 : W) × (open_database p cfg
          dsn
          (nothing_wired, s)
        ≡ (none, (w1, s1)))
      × ((p.start_providers s1).1 ≡ s2)
      × ((p.start_checker s2).1 ≡ s3)
      × ((p.start_workers s3).1 ≡ s4)
      × (wire p cfg dsn (w4, s4) ≡ (none, (w, s')))
unfolding startup_with open_registry open_checker open_workers
startup_with-steps p cfg dsn w s s' e =
    let (m1, opened, rest1) = and_then-none (open_database p cfg dsn (nothing_wired, s)) _ _ e in
    let (m2, registry, rest2) = and_then-none (open_registry p cfg m1) _ _ rest1 in
    let (m3, checker, rest3) = and_then-none (open_checker p cfg m2) _ _ rest2 in
    let (m4, workers, rest4) = and_then-none (open_workers p cfg m3) _ _ rest3 in
    (
      m1.0,
      m4.0,
      m1.1,
      m2.1,
      m3.1,
      m4.1,
      opened,
      then_set-state p cfg (p.start_providers m1.1) m1.0 m2.0 _ m2.1 registry,
      then_set-state p cfg (p.start_checker m2.1) m2.0 m3.0 _ m3.1 checker,
      then_set-state p cfg (p.start_workers m3.1) m3.0 m4.0 _ m4.1 workers,
      rest4,
    )
