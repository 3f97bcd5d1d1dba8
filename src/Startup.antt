-- ===== src/Startup.antt =====
-- Startup and shutdown of the service, asb_api/__main__.py: the origins for CORS, the directory of
-- the screenshots and the steps of the shutdown. The choice of the providers is in
-- Providers/Registry. Texts that the code walks are lists of code points.
pub mod Wiring
pub mod Served
pub mod Returns
pub mod Steps
pub mod Service
pub mod Ended
use asb_cloud_api.Base.{
  ◌≡◌, refl, ℕ, String, Bool, true, false, Option, none, some, List, [], ◌∷◌, ◌==◌, string_eq,
  if◌then◌else◌,
}
use asb_cloud_api.Base.Text.Split.{split}
use asb_cloud_api.Base.Text.Strip.{strip}
use asb_cloud_api.Http.{Exc}

-- `dashboard.origins` of the configuration: a text, or a list of texts.
pub data Origins : Type 0 where
  origins_text : List ℕ → Origins
  origins_list : List (List ℕ) → Origins

-- `[o.strip() for o in os if o.strip()]`
unfoldable pub stripped : List (List ℕ) → List (List ℕ)
stripped [] = []
stripped (o ∷ os) = let rest = stripped os in elim (strip o) [ [] ↦ rest | c ∷ s ↦ (c ∷ s) ∷ rest ]

abbrev origins_of : Origins → List (List ℕ)
origins_of (origins_text s) = stripped (split b',' s)
origins_of (origins_list os) = stripped os

-- DASHBOARD_ORIGINS where it is more than white space, else the configuration. No origins mean no
-- CORS.
unfoldable pub dash_origins : List ℕ → Origins → List (List ℕ)
dash_origins env config = elim (strip env) [
  | [] ↦ origins_of config
  | c ∷ s ↦ stripped (split b',' (c ∷ s))
]

-- `a or b` of texts.
abbrev first_text : Option String → String → String
first_text none rest = rest
first_text (some s) rest = if s == "" then rest else s

-- `enabled`, `dir` and ASB_SCREENSHOT_DIR.
unfoldable pub screenshot_dir : Option Bool → Option String → Option String → Option String
screenshot_dir (some false) dir env = none
screenshot_dir (some true) dir env = some (first_text dir (first_text env "/tmp/screenshots"))
screenshot_dir none dir env = some (first_text dir (first_text env "/tmp/screenshots"))

pub data Router : Type 0 where
  scrape_router sessions_router health_router usage_router licenses_router : Router
  checkout_router webhooks_router billing_router : Router

-- The routers of the app, in the order of their mounting.
unfoldable pub routers : Bool → List Router
routers billing_enabled =
    let billing : List Router =
      if billing_enabled then checkout_router ∷ webhooks_router ∷ billing_router ∷ [] else [] in
    scrape_router ∷ sessions_router ∷ health_router ∷ usage_router ∷ licenses_router ∷ billing

-- `pool.workers_per_region` and `pool.default_region`.
unfoldable pub pool_settings :
    Option (List (String × ℕ)) → Option String → List (String × ℕ) × String
pool_settings workers_per_region default_region = (
  elim workers_per_region [ none ↦ ("jp", 5) ∷ [] | some regions ↦ regions ],
  elim default_region [ none ↦ "jp" | some region ↦ region ],
)

-- The address that the server is run at.
unfoldable pub server_address : Option String → Option ℕ → String × ℕ
server_address host port =
    (elim host [ none ↦ "0.0.0.0" | some h ↦ h ], elim port [ none ↦ 8000 | some p ↦ p ])

-- The stop of a part of the service, which may raise.
abbrev pub Stop : Type 0 → Type 0
Stop S = S → Option Exc × S

-- Each part that was started is stopped; what a stop raises is logged, and the next is stopped.
unfoldable pub shutdown : {S : Type 0} → List (Option (Stop S)) → S → List Exc × S
shutdown [] s = ([], s)
shutdown (none ∷ parts) s = shutdown parts s
shutdown (some stop ∷ parts) s =
    let (raised, s') = stop s in
    let (log, last) = shutdown parts s' in (elim raised [ none ↦ log | some e ↦ e ∷ log ], last)

-- The stops one after the other, what they raise left aside.
abbrev pub stop_each : {S : Type 0} → List (Option (Stop S)) → S → S
stop_each [] s = s
stop_each (none ∷ parts) s = stop_each parts s
stop_each (some stop ∷ parts) s = stop_each parts (stop s).1

-- The shutdown stops every part that was started, in order, whatever the stops raise.
pub shutdown-stop_each :
    {S : Type 0} (parts : List (Option (Stop S))) (s : S) → (shutdown parts s).1 ≡ stop_each parts s
unfolding shutdown
shutdown-stop_each [] s = refl
shutdown-stop_each (none ∷ parts) s = shutdown-stop_each parts s
shutdown-stop_each (some stop ∷ parts) s = shutdown-stop_each parts (stop s).1
