-- ===== src/Client/Lifecycle.antt =====
-- The two lazy HTTP clients of `AsbClient`, clients/python/asb_client/client.py: they are opened by the
-- first call or by `with`, and closed by `close` and `aclose`. httpx is a parameter over a state `S`.
use asb_cloud_api.Base.{
  ◌≡◌, ℕ, suc, String, Bool, false, not, Option, none, some, List, [], ◌∷◌, ◌++◌, ◌==◌, string_eq,
  nat_eq, if◌then◌else◌,
}
use asb_cloud_api.Base.Dict.{Dict}
use asb_cloud_api.Client.{Node, Outcome, Sent, request, default_headers, first_true}
use asb_cloud_api.Client.Commands.{HttpCall}

-- The arguments of `httpx.Client` and `httpx.AsyncClient`.
pub record Settings : Type 0 where
  pub base_url : List ℕ
  pub headers : Dict String String
  pub timeout : ℕ

-- A client `H` of httpx.
pub record Httpx (S H : Type 0) : Type 0 where
  pub make : Settings → S → H × S
  pub send : H → HttpCall → S → Sent × S
  pub close : H → S → S

-- `class AsbClient`
pub record AsbClient (H A : Type 0) : Type 0 where
  pub settings : Settings
  pub has_key : Bool
  pub sync_client : Option H
  pub async_client : Option A

-- `base_url.rstrip("/") + "/"`
abbrev push_unless_slash : ℕ → List ℕ → List ℕ
push_unless_slash c [] = if c == b'/' then [] else c ∷ []
push_unless_slash c (d ∷ ds) = c ∷ d ∷ ds

abbrev pub rstrip_slash : List ℕ → List ℕ
rstrip_slash [] = []
rstrip_slash (c ∷ cs) = push_unless_slash c (rstrip_slash cs)

-- `__init__`; `env` is ASB_API_KEY of the environment.
unfoldable pub new_client :
    {H A : Type 0} → List ℕ → Option String → Option String → ℕ → Dict String String → AsbClient H A
new_client base_url api_key env timeout headers = record {
  settings = record {
    base_url = rstrip_slash base_url ++ (b'/' ∷ []);
    headers = default_headers api_key env headers;
    timeout = timeout;
  };
  has_key = elim (first_true api_key env) [ none ↦ false | some key ↦ not (key == "") ];
  sync_client = none;
  async_client = none;
}

module _ {S H A : Type 0} (sync_lib : Httpx S H) (async_lib : Httpx S A) where
  abbrev pub Client : Type 0
  Client = AsbClient H A

  -- The client that there is, or else a new one.
  abbrev pub sync_or_new : Client → S → Option H → H × Client × S
  sync_or_new c s (some h) = (h, c, s)
  sync_or_new c s none =
      let (h, s') = sync_lib.make c.settings s in (h, record c { sync_client = some h }, s')

  -- `_get_sync_client`
  unfoldable pub get_sync_client : Client → S → H × Client × S
  get_sync_client c s = sync_or_new c s c.sync_client

  abbrev pub async_or_new : Client → S → Option A → A × Client × S
  async_or_new c s (some h) = (h, c, s)
  async_or_new c s none =
      let (h, s') = async_lib.make c.settings s in (h, record c { async_client = some h }, s')

  -- `_get_async_client`
  unfoldable pub get_async_client : Client → S → A × Client × S
  get_async_client c s = async_or_new c s c.async_client

  -- `__enter__` and `__aenter__`.
  unfoldable pub enter : Client → S → Client × S
  enter c s = let (_, c', s') = get_sync_client c s in (c', s')

  unfoldable pub aenter : Client → S → Client × S
  aenter c s = let (_, c', s') = get_async_client c s in (c', s')

  abbrev pub close_open : Client → S → Option H → Client × S
  close_open c s none = (c, s)
  close_open c s (some h) = (record c { sync_client = none }, sync_lib.close h s)

  -- `close`, which is all of `__exit__`.
  unfoldable pub close : Client → S → Client × S
  close c s = close_open c s c.sync_client

  abbrev pub aclose_open : Client → S → Option A → Client × S
  aclose_open c s none = (c, s)
  aclose_open c s (some h) = (record c { async_client = none }, async_lib.close h s)

  -- `aclose`, which is all of `__aexit__`.
  unfoldable pub aclose : Client → S → Client × S
  aclose c s = aclose_open c s c.async_client

  module _ (repr : Dict String Node → String) where
    -- `_request`
    unfoldable pub sync_request : HttpCall → Client → S → Outcome × Client × S
    sync_request call c s =
        let (h, c', s1) = get_sync_client c s in
        let (sent, s2) = sync_lib.send h call s1 in (request repr c.has_key sent, c', s2)

    -- `_arequest`
    unfoldable pub async_request : HttpCall → Client → S → Outcome × Client × S
    async_request call c s =
        let (h, c', s1) = get_async_client c s in
        let (sent, s2) = async_lib.send h call s1 in (request repr c.has_key sent, c', s2)

    -- The calls in the body of `with` or `async with`.
    unfoldable pub sync_requests : List HttpCall → Client → S → Client × S
    sync_requests [] c s = (c, s)
    sync_requests (call ∷ calls) c s =
        let (_, c', s') = sync_request call c s in sync_requests calls c' s'

    unfoldable pub async_requests : List HttpCall → Client → S → Client × S
    async_requests [] c s = (c, s)
    async_requests (call ∷ calls) c s =
        let (_, c', s') = async_request call c s in async_requests calls c' s'

    -- `with client: ...` and `async with client: ...`; the body may end by an exception.
    unfoldable pub with_client : List HttpCall → Client → S → Client × S
    with_client calls c s =
        let (c1, s1) = enter c s in let (c2, s2) = sync_requests calls c1 s1 in close c2 s2

    unfoldable pub async_with_client : List HttpCall → Client → S → Client × S
    async_with_client calls c s =
        let (c1, s1) = aenter c s in let (c2, s2) = async_requests calls c1 s1 in aclose c2 s2

-- The clients of httpx that are open, as it documents them.
pub record Counted {S H : Type 0} (lib : Httpx S H) : Type 0 where
  pub opened : S → ℕ
  pub make_opened : (a : Settings) (s : S) → opened (lib.make a s).1 ≡ suc (opened s)
  pub send_opened : (h : H) (call : HttpCall) (s : S) → opened (lib.send h call s).1 ≡ opened s
  pub close_opened : (h : H) (s : S) (n : ℕ) → opened s ≡ suc n → opened (lib.close h s) ≡ n

abbrev pub held {ℓ} : {A : Type ℓ} → Option A → ℕ
held none = 0
held (some _) = 1
