-- ===== src/Providers.antt =====
-- Proxy providers: asb_api/providers/base.py, with null.py here and the others in the children.
-- The registry has Brightdata, whose web API is a parameter.
pub mod Custom
pub mod Decodo
pub mod Breaker
pub mod Registry
pub mod Status
use asb_cloud_api.Base.{String, Bool, true, false, Option, none}
use asb_cloud_api.Base.Int.{ℤ, pos}
use asb_cloud_api.Http.{Result, ok}

-- `class ProxyConfig`
pub record ProxyConfig : Type 0 where
  pub host : String
  pub port : ℤ
  pub username : Option String
  pub password : Option String
  pub protocol : String
  pub region : Option String
  pub sticky : Bool
  pub session_token : Option String

-- A proxy with the defaults of the dataclass.
unfoldable pub proxy_at : String → ℤ → ProxyConfig
proxy_at host port = record {
  host = host;
  port = port;
  username = none;
  password = none;
  protocol = "http";
  region = none;
  sticky = false;
  session_token = none;
}

-- `class ProxyProviderInterface`, over the provider's own state.
pub record Provider : Type 1 where
  pub State : Type 0
  pub name : String
  pub get_proxy : Option String → State → Result ProxyConfig × State
  pub release_proxy : ProxyConfig → State → State
  pub health_check : State → Result Bool × State

-- `class NullProvider`
abbrev pub null_provider : Provider
null_provider = record {
  State = Unit;
  name = "null";
  get_proxy = λ region s. (ok (proxy_at "DIRECT" (pos 0)), s);
  release_proxy = λ proxy s. s;
  health_check = λ s. (ok true, s);
}
