-- ===== src/Runner/Contexts.antt =====
-- The contexts that a run opens and closes.
use asb_cloud_api.Base.{
  ◌≡◌, refl, sym, ap, ◌∙◌, ◌⊎◌, inl, inr, ℕ, suc, String, Bool, true, false, ◌==◌, ◌||◌, Option,
  none, some, if_elim, string_eq, if◌then◌else◌,
}
use asb_cloud_api.Base.Dict.{Dict}
use asb_cloud_api.Http.{Result, ok, err, Exc}
use asb_cloud_api.Worker.{Page}
use asb_cloud_api.Runner.{
  Browser, Job, ContextOptions, prepare_body, proxy_settings, after, load, take_screenshot, browse,
  closing, in_context, run,
}

module _ {B C P R : Type 0} (browser : Browser B C P R) (alive : B → ℕ) where
  -- The number of open contexts, as the browser documents it: a new context adds one, its close
  -- takes one away, and no other call changes it.
  pub record CountsContexts : Type 0 where
    pub new_context-ok :
        (o : ContextOptions) (b b' : B) (c : C)
        → browser.new_context o b ≡ (ok c, b')
        → alive b' ≡ suc (alive b)
    pub new_context-err :
        (o : ContextOptions) (b b' : B) (e : Exc)
        → browser.new_context o b ≡ (err e, b')
        → alive b' ≡ alive b
    pub close-alive : (c : C) (b : B) (n : ℕ) → alive b ≡ suc n → alive (browser.close c b).1 ≡ n
    pub new_page-alive : (c : C) (b : B) → alive (browser.new_page c b).1 ≡ alive b
    pub fetch-alive :
        (c : C) (url : String) (headers : Dict String String) (body : Option String) (timeout : ℕ)
        (b : B)
        → alive (browser.fetch c url headers body timeout b).1 ≡ alive b
    pub text-alive : (r : R) (b : B) → alive (browser.text r b).1 ≡ alive b
    pub set_content-alive :
        (p : P) (html : String) (timeout : ℕ) (b : B)
        → alive (browser.set_content p html timeout b).1 ≡ alive b
    pub goto-alive :
        (p : P) (url : String) (timeout : ℕ) (b : B)
        → alive (browser.goto p url timeout b).1 ≡ alive b
    pub content-alive : (p : P) (b : B) → alive (browser.content p b).1 ≡ alive b
    pub cookies-alive : (c : C) (b : B) → alive (browser.cookies c b).1 ≡ alive b
    pub screenshot-alive :
        (p : P) (path : String) (b : B) → alive (browser.screenshot p path b).1 ≡ alive b

  -- A sequence of calls that each keep the number keeps it.
  after-alive :
      {A D : Type 0} (r : Result A × B) (k : A → B → Result D × B) {n : ℕ}
      → alive r.1 ≡ n
      → ((a : A) (b : B) → alive (k a b).1 ≡ alive b)
      → alive (after r k).1 ≡ n
  unfolding after
  after-alive (ok a, b) k same keeps = keeps a b ∙ same
  after-alive (err e, b) k same keeps = same

  -- The browser opened a context and then refused it a page, which is what the run raises.
  abbrev pub PageRefused : B → Result Page × B → Type 0
  PageRefused b result =
      (o : ContextOptions) × (c : C) × (b1 : B) × (b2 : B) × (e : Exc) × (browser.new_context o b
        ≡ (ok c, b1))
      × (browser.new_page c b1 ≡ (err e, b2))
      × (result ≡ (err e, b2))

  -- A run kept the number, or lost a context.
  abbrev pub KeepsOrRefused : B → Result Page × B → Type 0
  KeepsOrRefused b result =
      (alive result.1 ≡ alive b) ⊎ ((alive result.1 ≡ suc (alive b)) × PageRefused b result)

  module _ (counts : CountsContexts) where
    load-alive :
        (job : Job) (is_post : Bool) (headers : Dict String String) (body : Option String)
        (context : C) (page : P) (b : B)
        → alive (load browser job is_post headers body context page b).1 ≡ alive b
    unfolding load
    load-alive job true headers body context page b =
        after-alive _ _ (counts.fetch-alive context job.url headers body _ b) λ response b1.
          after-alive _ _ (counts.text-alive response b1)
            λ html b2. after-alive _ _ (counts.set_content-alive page html _ b2) λ _ _. refl
    load-alive job false headers body context page b =
        after-alive _ _ (counts.goto-alive page job.url _ b)
          λ response b1. after-alive _ _ (counts.content-alive page b1) λ html b2. refl

    take_screenshot-alive :
        (job : Job) (name : String) (page : P) (b : B)
        → alive (take_screenshot browser job name page b).1 ≡ alive b
    unfolding take_screenshot
    take_screenshot-alive job name page b =
        let directory : String = elim job.screenshot_dir [ none ↦ "" | some d ↦ d ] in
        if_elim {A = Result (Option String) × B} (λ x. alive x.1 ≡ alive b) (directory == "") refl
          (if_elim {A = Result (Option String) × B} (λ x. alive x.1 ≡ alive b) job.screenshot
            (after-alive _ _ (counts.screenshot-alive page _ b) λ _ _. refl) refl)

    browse-alive :
        (job : Job) (is_post : Bool) (name : String) (headers : Dict String String)
        (body : Option String) (context : C) (page : P) (b : B)
        → alive (browse browser job is_post name headers body context page b).1 ≡ alive b
    unfolding browse
    browse-alive job is_post name headers body context page b =
        after-alive _ _ (load-alive job is_post headers body context page b)
          λ (html, headers_out) b1.
            after-alive _ _ (counts.cookies-alive context b1)
              λ cookies b2. after-alive _ _ (take_screenshot-alive job name page b2) λ _ _. refl

    closing-alive :
        (context : C) (r : Result Page × B) (n : ℕ)
        → alive r.1 ≡ suc n
        → alive (closing browser context r).1 ≡ n
    unfolding closing
    closing-alive context (result, b) n one =
        after-alive _ _ (counts.close-alive context b n one) λ _ _. refl

    in_context-alive :
        (job : Job) (is_post : Bool) (name : String) (headers : Dict String String)
        (body : Option String) (o : ContextOptions) (b b1 : B) (context : C) (page : Result P × B)
        → browser.new_context o b ≡ (ok context, b1)
        → browser.new_page context b1 ≡ page
        → KeepsOrRefused b (in_context browser job is_post name headers body context b1)
    unfolding in_context after
    in_context-alive job is_post name headers body o b b1 context (ok page, b2) opened paged =
        let one_more : alive b2 ≡ suc (alive b) =
          ap (λ (r : Result P × B). alive r.1) (sym paged)
          ∙ counts.new_page-alive context b1
          ∙ counts.new_context-ok o b b1 context opened in
        inl (
          rw paged (
            closing-alive context _ (alive b)
              (browse-alive job is_post name headers body context page b2 ∙ one_more)))
    in_context-alive job is_post name headers body o b b1 context (err e, b2) opened paged =
        let one_more : alive b2 ≡ suc (alive b) =
          ap (λ (r : Result P × B). alive r.1) (sym paged)
          ∙ counts.new_page-alive context b1
          ∙ counts.new_context-ok o b b1 context opened in
        inr (rw paged one_more, rw paged (o, context, b1, b2, e, opened, paged, refl))

    new_context-alive :
        (job : Job) (is_post : Bool) (name : String) (headers : Dict String String)
        (body : Option String) (o : ContextOptions) (b : B) (context : Result C × B)
        → browser.new_context o b ≡ context
        → KeepsOrRefused b
            (after (browser.new_context o b) (in_context browser job is_post name headers body))
    unfolding after
    new_context-alive job is_post name headers body o b (ok context, b1) opened = rw opened (
        in_context-alive job is_post name headers body o b b1 context (browser.new_page context b1)
          opened refl)
    new_context-alive job is_post name headers body o b (err e, b1) opened =
        inl (rw opened (counts.new_context-err o b b1 e opened))

-- A run leaves the browser with as many open contexts as before, whatever its calls return or raise,
-- save where the browser opens a context and refuses it a page: then that context stays open.
pub run-alive :
    {B C P R : Type 0} (browser : Browser B C P R) (alive : B → ℕ) (upper lower : String → String)
    (started : Bool) (name : String) (job : Job) (b : B) (counts : CountsContexts browser alive)
    → KeepsOrRefused browser alive b (run browser upper lower started name job b)
unfolding run
run-alive browser alive upper lower started name job b counts =
    let method_upper = upper (if job.method == "" then "GET" else job.method) in
    let (headers, body) = prepare_body lower job.headers job.payload in
    let options : ContextOptions = record {
      fingerprint = job.fingerprint;
      proxy = proxy_settings job.proxy;
      extra_http_headers = headers;
    } in
    if_elim (KeepsOrRefused browser alive b) (method_upper == "GET" || method_upper == "POST")
      (if_elim (KeepsOrRefused browser alive b) started
        (new_context-alive browser alive counts job (method_upper == "POST") name headers body
          options b (browser.new_context options b) refl)
        (inl refl))
      (inl refl)
