-- ===== src/Models.antt =====
-- The data classes of asb_api/session/models.py that pass between the routes and the workers.
-- A JSON body is kept as its text.
use asb_cloud_api.Base.{ℕ, String, Bool, Option, List}
use asb_cloud_api.Base.Int.{ℤ}
use asb_cloud_api.Base.Dict.{Dict}
use asb_cloud_api.Http.{Value}
use asb_cloud_api.Sessions.{Cookies}

pub data SessionType : Type 0 where
  stateless stateful stateful_reset : SessionType

pub record ScrapeRequest : Type 0 where
  pub url : String
  pub method : String
  pub headers : Dict String String
  pub body : Option String
  pub proxy_provider : Option String
  pub region : Option String
  pub fingerprint : Option String
  pub timeout : ℕ
  pub screenshot : Bool
  pub session_id : Option String
  pub session_type : SessionType

pub record ScrapeMetadata : Type 0 where
  pub request_id : String
  pub provider : String
  pub region : Option String
  pub fingerprint_id : List ℕ
  pub worker_id : String
  pub duration_ms : ℕ
  pub block_detected : Bool
  pub retries : ℕ

pub data ResponseStatus : Type 0 where
  success error success_with_retries : ResponseStatus

pub record ScrapeResponse : Type 0 where
  pub request_id : String
  pub status : ResponseStatus
  pub html : Option String
  pub screenshot_url : Option String
  pub cookies : Cookies
  pub headers : Dict String String
  pub metadata : Option ScrapeMetadata
  pub error_code : Option String
  pub message : Option String

pub record BulkScrapeRequest : Type 0 where
  pub items : List ScrapeRequest
  pub max_concurrency : Option ℤ

-- An error of a bulk item: its code and its message.
pub record ItemError : Type 0 where
  pub error_code : Value
  pub message : Value

pub record BulkItemResult : Type 0 where
  pub index : ℕ
  pub result : Option ScrapeResponse
  pub item_error : Option ItemError

pub record BulkScrapeResponse : Type 0 where
  pub results : List BulkItemResult
  pub total : ℕ
  pub succeeded : ℕ
  pub failed : ℕ
