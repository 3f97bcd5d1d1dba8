-- ===== src/Tests/Halves.antt =====
-- The client's two halves and a refresh of Decodo at concrete inputs.
use asb_cloud_api.Base.{◌≡◌, refl, ℕ, suc, ◌-◌, none, some, [], ◌∷◌, string_eq}
use asb_cloud_api.Base.Int.{pos}
use asb_cloud_api.Http.{ok}
use asb_cloud_api.Base.Text.{codes}
use asb_cloud_api.Client.{Response, responded}
use asb_cloud_api.Client.Lifecycle.{Httpx, AsbClient, new_client}
use asb_cloud_api.Client.Methods.{delete_session_async, sync_of}
use asb_cloud_api.Client.Async.{swap, swapped, call_sync, call_async, call_async-swap}
use asb_cloud_api.Providers.{ProxyConfig, proxy_at}
use asb_cloud_api.Providers.Decodo.{
  Pools, DecodoState, proxy_key, get_decodo, wanted_region, candidates,
}
use asb_cloud_api.Providers.Decodo.Refresh.{
  Refreshing, running, after_outage, get_decodo-after_outage,
}

-- A library whose clients are their numbers and whose server answers 204; the state counts the clients
-- that are open.
abbrev no_content : Response
no_content = record { status_code = 204; json = none; text = "" }

abbrev httpx : Httpx ℕ ℕ
httpx = record {
  make = λ settings s. (s, suc s);
  send = λ h call s. (responded no_content, s);
  close = λ h s. s - 1;
}

abbrev client : AsbClient ℕ ℕ
client = new_client (codes "http://localhost:8000/") (some "sk_live_1") none 60 []

call_async-swap_example :
    call_sync httpx httpx (λ d. "{}") (sync_of (delete_session_async "sess_1")) (swap client) 0
    ≡ some (
        swapped httpx httpx
          (λ d. "{}")
          (call_async httpx httpx (λ d. "{}") (delete_session_async "sess_1") client 0))
call_async-swap_example =
    call_async-swap httpx httpx (λ d. "{}") (delete_session_async "sess_1") client 0

abbrev proxy : ProxyConfig
proxy = proxy_at "10.0.0.1" (pos 80)

abbrev pools : Pools
pools = ("jp", proxy ∷ []) ∷ []

-- The only proxy of the pool is out.
abbrev one_out : DecodoState
one_out = record {
  default_region = "jp";
  proxies = pools;
  in_use = proxy_key proxy ∷ [];
  last_refresh = 0;
}

abbrev refreshing : Refreshing
refreshing = record { state = one_out; task = running }

get_decodo-after_outage_example :
    (get_decodo none (after_outage ("jp" ∷ []) pools 300 600 refreshing).state).0 ≡ ok proxy
unfolding wanted_region candidates string_eq
get_decodo-after_outage_example =
    get_decodo-after_outage ("jp" ∷ []) pools 300 600 refreshing none proxy [] refl
