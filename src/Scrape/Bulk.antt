-- ===== src/Scrape/Bulk.antt =====
-- `POST /v1/bulk-scrape`: the batch is checked, its quota is taken at once, and every item ends in a
-- result of its own, in the order of the items.
pub mod Results
use asb_cloud_api.Base.{
  ℕ, suc, ◌-◌, String, Bool, true, false, Option, none, some, List, [], ◌∷◌, ltb, length, count_if,
  arith, if◌then◌else◌, nat_eq, ◌==◌,
}
use asb_cloud_api.Http.{Exc, http, Result, ok, err, str, raise_api_error, message_of, Body}
use asb_cloud_api.Models.{
  ScrapeRequest, ScrapeResponse, ResponseStatus, success, error, success_with_retries,
  BulkScrapeRequest, BulkItemResult, BulkScrapeResponse,
}
use asb_cloud_api.Scrape.{
  Backend, Service, World, Clock, check_rate_limit_units, get_key_tier,
  bulk_error_from_http_exception, execute_one_scrape,
}

-- `_run_one`, from what the execution gave.
pub item_of : (Body → String) → ℕ → Result ScrapeResponse → BulkItemResult
item_of repr index (ok result) = record { index = index; result = some result; item_error = none }
item_of repr index (err (http e)) = record {
  index = index;
  result = none;
  item_error = some (bulk_error_from_http_exception repr e);
}
item_of repr index (err e) = record {
  index = index;
  result = none;
  item_error = some (record { error_code = str "INTERNAL_ERROR"; message = str (message_of e) });
}

is_success : ResponseStatus → Bool
is_success success = true
is_success error = false
is_success success_with_retries = false

-- `r.result is not None and r.result.status == "success"`
unfoldable pub has_succeeded : BulkItemResult → Bool
unfolding is_success
has_succeeded r = elim r.result [ none ↦ false | some result ↦ is_success result.status ]

summary : List BulkItemResult → BulkScrapeResponse
summary results =
    let succeeded = count_if has_succeeded results in
    record {
      results = results;
      total = length results;
      succeeded = succeeded;
      failed = length results - succeeded;
    }

module _ (B : Backend) where
  run_items :
      Service → Clock B → String → ℕ → List ScrapeRequest → World B → List BulkItemResult × World B
  run_items service clock key_id index [] w = ([], w)
  run_items service clock key_id index (item ∷ items) w =
      let (result, w') = execute_one_scrape B service clock item key_id true w in
      let (rest, w'') = run_items service clock key_id (suc index) items w' in
      (item_of service.repr index result ∷ rest, w'')

  -- After the batch's quota.
  run_batch :
      Service
      → Clock B
      → String
      → List ScrapeRequest
      → Option Exc
      → World B
      → Result BulkScrapeResponse × World B
  run_batch service clock key_id items (some e) w = (err e, w)
  run_batch service clock key_id items none w =
      let (results, w') = run_items service clock key_id 0 items w in (ok (summary results), w')

  -- `MAX_BULK_ITEMS` is 50.
  pub bulk_scrape :
      Service → Clock B → BulkScrapeRequest → String → World B → Result BulkScrapeResponse × World B
  bulk_scrape service clock payload key_id w =
      let count = length payload.items in
      if count == 0
      then (raise_api_error 400 "BAD_REQUEST" "items array must not be empty", w)
      else if ltb 50 count
      then (raise_api_error 400 "BAD_REQUEST" "bulk scrape supports at most 50 items", w)
      else (let (refused, windows) =
            check_rate_limit_units service.limits clock.now key_id (get_key_tier key_id w.keys)
              count w.windows in
          run_batch service clock key_id payload.items refused (record w { windows = windows }))
