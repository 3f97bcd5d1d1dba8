-- ===== src/Client/Async.antt =====
-- The asynchronous half of `AsbClient` against the synchronous one, clients/python/asb_client/client.py.
use asb_cloud_api.Base.{◌≡◌, refl, ap, String, Option, none, some, List, [], ◌∷◌}
use asb_cloud_api.Base.Dict.{Dict}
use asb_cloud_api.Client.{Node, Outcome}
use asb_cloud_api.Client.Commands.{Command, HttpCall, http_call}
use asb_cloud_api.Client.Lifecycle.{
  Httpx, AsbClient, get_sync_client, get_async_client, enter, aenter, close, aclose, async_or_new,
  sync_or_new, close_open, aclose_open, sync_request, async_request, sync_requests, async_requests,
  with_client, async_with_client,
}
use asb_cloud_api.Client.Methods.{AsyncMethod, async_call, sync_of, async_call-sync_of}

-- The client with its two halves exchanged.
abbrev pub swap : {H A : Type 0} → AsbClient H A → AsbClient A H
swap c = record {
  settings = c.settings;
  has_key = c.has_key;
  sync_client = c.async_client;
  async_client = c.sync_client;
}

-- A synchronous method.
unfoldable pub call_sync :
    {S H A : Type 0}
    → Httpx S H
    → Httpx S A
    → (Dict String Node → String)
    → Command
    → AsbClient H A
    → S
    → Option (Outcome × AsbClient H A × S)
call_sync sync_lib async_lib repr command c s = elim (http_call command) [
  | none ↦ none
  | some call ↦ some (sync_request sync_lib async_lib repr call c s)
]

module _ {S H A : Type 0} (sync_lib : Httpx S H) (async_lib : Httpx S A)
    (repr : Dict String Node → String) where
  abbrev pub swapped : Outcome × AsbClient H A × S → Outcome × AsbClient A H × S
  swapped (o, c, s) = (o, swap c, s)

  abbrev pub swapped_state : AsbClient H A × S → AsbClient A H × S
  swapped_state (c, s) = (swap c, s)

  -- An asynchronous method.
  unfoldable pub call_async : AsyncMethod → AsbClient H A → S → Outcome × AsbClient H A × S
  call_async m = async_request sync_lib async_lib repr (async_call m)

  async_or_new-swap :
      (c : AsbClient H A) (s : S) (found : Option A)
      → let (h, c', s') = async_or_new sync_lib async_lib c s found in
        sync_or_new async_lib sync_lib (swap c) s found ≡ (h, swap c', s')
  async_or_new-swap c s none = refl
  async_or_new-swap c s (some h) = refl

  get_async_client-swap :
      (c : AsbClient H A) (s : S)
      → let (h, c', s') = get_async_client sync_lib async_lib c s in
        get_sync_client async_lib sync_lib (swap c) s ≡ (h, swap c', s')
  unfolding get_async_client get_sync_client
  get_async_client-swap c s = async_or_new-swap c s c.async_client

  async_request-swap :
      (call : HttpCall) (c : AsbClient H A) (s : S)
      → sync_request async_lib sync_lib repr call (swap c) s
        ≡ swapped (async_request sync_lib async_lib repr call c s)
  unfolding sync_request async_request
  async_request-swap call c s = rw (get_async_client-swap c s) refl

  async_requests-swap :
      (calls : List HttpCall) (c : AsbClient H A) (s : S)
      → sync_requests async_lib sync_lib repr calls (swap c) s
        ≡ swapped_state (async_requests sync_lib async_lib repr calls c s)
  unfolding sync_requests async_requests
  async_requests-swap [] c s = refl
  async_requests-swap (call ∷ calls) c s =
      let (_, c', s') = async_request sync_lib async_lib repr call c s in
      rw (async_request-swap call c s) (async_requests-swap calls c' s')

  aclose_open-swap :
      (c : AsbClient H A) (s : S) (found : Option A)
      → close_open async_lib sync_lib (swap c) s found
        ≡ swapped_state (aclose_open sync_lib async_lib c s found)
  aclose_open-swap c s none = refl
  aclose_open-swap c s (some h) = refl

  aclose-swap :
      (c : AsbClient H A) (s : S)
      → close async_lib sync_lib (swap c) s ≡ swapped_state (aclose sync_lib async_lib c s)
  unfolding close aclose
  aclose-swap c s = aclose_open-swap c s c.async_client

  -- A body under `async with` does what a body of the same calls under `with` does with the halves of
  -- the client exchanged.
  pub async_with_client-swap :
      (calls : List HttpCall) (c : AsbClient H A) (s : S)
      → with_client async_lib sync_lib repr calls (swap c) s
        ≡ swapped_state (async_with_client sync_lib async_lib repr calls c s)
  unfolding with_client async_with_client enter aenter
  async_with_client-swap calls c s =
      let (_, c1, s1) = get_async_client sync_lib async_lib c s in
      let (c2, s2) = async_requests sync_lib async_lib repr calls c1 s1 in
      rw (get_async_client-swap c s, async_requests-swap calls c1 s1, aclose-swap c2 s2) refl

  -- An asynchronous method does to the client, to httpx and to the server what its synchronous
  -- counterpart does with the halves of the client exchanged, and returns or raises the same.
  pub call_async-swap :
      (m : AsyncMethod) (c : AsbClient H A) (s : S)
      → call_sync async_lib sync_lib repr (sync_of m) (swap c) s ≡ some (swapped (call_async m c s))
  unfolding call_sync call_async
  call_async-swap m c s =
      rw (async_call-sync_of m, call_sync) (ap some (async_request-swap (async_call m) c s))
