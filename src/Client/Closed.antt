-- ===== src/Client/Closed.antt =====
-- A client that is used under `with` or `async with` is closed, clients/python/asb_client/client.py.
use asb_cloud_api.Base.{
  ◌≡◌, refl, ap, suc, ◌+◌, ◌-◌, ◌≤◌, String, Option, none, some, List, [], ◌∷◌, arith,
}
use asb_cloud_api.Base.Dict.{Dict}
use asb_cloud_api.Client.{Node}
use asb_cloud_api.Client.Commands.{HttpCall}
use asb_cloud_api.Client.Lifecycle.{
  Httpx, AsbClient, get_sync_client, enter, close, sync_request, sync_requests, with_client,
  async_with_client, Counted, held,
}
use asb_cloud_api.Client.Async.{swap, async_with_client-swap}

module _ {S H A : Type 0} (sync_lib : Httpx S H) (async_lib : Httpx S A)
    (counted : Counted sync_lib) (repr : Dict String Node → String) where
  -- The client holds all that it has opened.
  abbrev Balanced : AsbClient H A → S → AsbClient H A → S → Type 0
  Balanced c s c' s' =
      counted.opened s' + held c.sync_client ≡ counted.opened s + held c'.sync_client

  get_sync_client-Balanced :
      (c : AsbClient H A) (found : Option H) (s : S)
      → c.sync_client ≡ found
      → let (_, c', s') = get_sync_client sync_lib async_lib c s in Balanced c s c' s'
  unfolding get_sync_client
  get_sync_client-Balanced c none s at =
      rw at (omega (arith, counted.make_opened c.settings s, ap held at))
  get_sync_client-Balanced c (some h) s at = rw at refl

  sync_request-Balanced :
      (call : HttpCall) (c : AsbClient H A) (s : S)
      → let (_, c', s') = sync_request sync_lib async_lib repr call c s in Balanced c s c' s'
  unfolding sync_request
  sync_request-Balanced call c s =
      let (h, c', s1) = get_sync_client sync_lib async_lib c s in
      omega (arith, counted.send_opened h call s1, get_sync_client-Balanced c c.sync_client s refl)

  sync_requests-Balanced :
      (calls : List HttpCall) (c : AsbClient H A) (s : S)
      → let (c', s') = sync_requests sync_lib async_lib repr calls c s in Balanced c s c' s'
  unfolding sync_requests
  sync_requests-Balanced [] c s = refl
  sync_requests-Balanced (call ∷ calls) c s =
      let (_, c', s') = sync_request sync_lib async_lib repr call c s in
      omega (arith, sync_request-Balanced call c s, sync_requests-Balanced calls c' s')

  close-Balanced :
      (c : AsbClient H A) (found : Option H) (s : S)
      → c.sync_client ≡ found
      → held c.sync_client ≤ counted.opened s
      → let (c', s') = close sync_lib async_lib c s in (c'.sync_client ≡ none) × Balanced c s c' s'
  unfolding close
  close-Balanced c none s at some_open = rw at (refl, refl)
  close-Balanced c (some h) s at some_open =
      let one : held c.sync_client ≡ 1 = ap held at in
      let rest : counted.opened s ≡ suc (counted.opened s - 1) = omega arith in
      let left = counted.close_opened h s (counted.opened s - 1) rest in rw at (refl, omega arith)

  -- At the end of `with` the client is closed, also one that it had open before; no client of httpx
  -- that it opened stays open, whatever the calls in the body return or raise.
  pub with_client-closed :
      (calls : List HttpCall) (c : AsbClient H A) (s : S)
      → held c.sync_client ≤ counted.opened s
      → let (c', s') = with_client sync_lib async_lib repr calls c s in
        (c'.sync_client ≡ none) × (counted.opened s' + held c.sync_client ≡ counted.opened s)
  unfolding with_client enter
  with_client-closed calls c s some_open =
      let (_, c1, s1) = get_sync_client sync_lib async_lib c s in
      let (c2, s2) = sync_requests sync_lib async_lib repr calls c1 s1 in
      let first = get_sync_client-Balanced c c.sync_client s refl in
      let body = sync_requests-Balanced calls c1 s1 in
      let (closed, last) = close-Balanced c2 c2.sync_client s2 refl (omega arith) in
      (closed, omega (arith, ap held closed))

-- At the end of `async with` the asynchronous client is closed in the same way.
async_with_client-closed :
    {S H A : Type 0} (sync_lib : Httpx S H) (async_lib : Httpx S A) (counted : Counted async_lib)
    (repr : Dict String Node → String) (calls : List HttpCall) (c : AsbClient H A) (s : S)
    → held c.async_client ≤ counted.opened s
    → let (c', s') = async_with_client sync_lib async_lib repr calls c s in
      (c'.async_client ≡ none) × (counted.opened s' + held c.async_client ≡ counted.opened s)
async_with_client-closed sync_lib async_lib counted repr calls c s some_open =
    rw (async_with_client-swap sync_lib async_lib repr calls c s) at
      (with_client-closed async_lib sync_lib counted repr calls (swap c) s some_open)
