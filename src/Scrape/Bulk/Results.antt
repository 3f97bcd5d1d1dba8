-- ===== src/Scrape/Bulk/Results.antt =====
-- Every item of a batch has its result, and the batch takes its quota once.
use asb_cloud_api.Base.{
  ◌≡◌, refl, ◌⊎◌, inl, inr, ℕ, suc, ◌+◌, ◌≤◌, ◌<◌, String, true, false, none, some, List, [], ◌∷◌,
  ltb, length, count_if, arith, nat_eq, ◌==◌,
}
use asb_cloud_api.Http.{Exc, err, raise_api_error}
use asb_cloud_api.Models.{
  ScrapeRequest, ScrapeResponse, BulkScrapeRequest, BulkItemResult, BulkScrapeResponse, ItemError,
}
use asb_cloud_api.Scrape.{
  Backend, Service, World, Clock, check_rate_limit_units, get_key_tier, execute_one_scrape,
}
use asb_cloud_api.Scrape.Bulk.{item_of, has_succeeded, run_batch, bulk_scrape}

-- The results stand at their own places, counted from the first.
abbrev pub IsIndexed : ℕ → List BulkItemResult → Type 0
IsIndexed first [] = Unit
IsIndexed first (r ∷ rs) = (r.index ≡ first) × IsIndexed (suc first) rs

-- A result or an error, and not both.
abbrev pub IsSettled : BulkItemResult → Type 0
IsSettled r =
    ((result : ScrapeResponse) × (r.result ≡ some result) × (r.item_error ≡ none))
    ⊎ ((e : ItemError) × (r.result ≡ none) × (r.item_error ≡ some e))

abbrev pub AllSettled : List BulkItemResult → Type 0
AllSettled [] = Unit
AllSettled (r ∷ rs) = IsSettled r × AllSettled rs

-- Each result is that of a scrape of the item in its place, in some state of the service, with the
-- quota taken already.
abbrev pub Answers :
    (B : Backend)
    → Service
    → Clock B
    → String
    → ℕ
    → List ScrapeRequest
    → List BulkItemResult
    → Type 0
Answers B service clock key_id index [] [] = Unit
Answers B service clock key_id index (item ∷ items) (r ∷ rs) =
    ((w : World B) × (r
        ≡ item_of service.repr index (execute_one_scrape B service clock item key_id true w).0))
    × Answers B service clock key_id (suc index) items rs
Answers B service clock key_id index _ _ = ⊥

module _ (B : Backend) where
  -- The response to a batch: as many results as items, each at its item's place, of a scrape of that
  -- item, and a result or an error and not both; and a summary that counts them.
  abbrev pub IsReport :
      Service → Clock B → String → List ScrapeRequest → BulkScrapeResponse → Type 0
  IsReport service clock key_id items r =
      (length r.results ≡ length items)
      × IsIndexed 0 r.results
      × AllSettled r.results
      × Answers B service clock key_id 0 items r.results
      × (r.total ≡ length items)
      × (r.succeeded ≡ count_if has_succeeded r.results)
      × (r.succeeded + r.failed ≡ r.total)

  -- An empty batch and one of more than 50 items are refused with a response 400, and nothing
  -- changes.
  pub bulk_scrape-bad_size :
      (service : Service) (clock : Clock B) (payload : BulkScrapeRequest) (key_id : String)
      (w : World B)
      → (length payload.items ≡ 0) ⊎ (50 < length payload.items)
      → (message : String) × (bulk_scrape B service clock payload key_id w
          ≡ (raise_api_error 400 "BAD_REQUEST" message, w))
  unfolding bulk_scrape
  bulk_scrape-bad_size service clock payload key_id w (inl empty) =
      ("items array must not be empty", ground arith)
  bulk_scrape-bad_size service clock payload key_id w (inr many) =
      ("bulk scrape supports at most 50 items", ground arith)

  -- A batch that the limiter refuses ends in the limiter's exception with none of its items begun:
  -- only the limiter's window is pruned.
  pub bulk_scrape-refused :
      (service : Service) (clock : Clock B) (payload : BulkScrapeRequest) (key_id : String)
      (w : World B) (e : Exc)
      → 1 ≤ length payload.items
      → length payload.items ≤ 50
      → (check_rate_limit_units service.limits clock.now key_id
          (get_key_tier key_id w.keys)
          (length payload.items)
          w.windows).0
        ≡ some e
      → bulk_scrape B service clock payload key_id w ≡ (
        err e,
        record w {
          windows =
              (check_rate_limit_units service.limits clock.now key_id
                (get_key_tier key_id w.keys)
                (length payload.items)
                w.windows).1;
        },
      )
  unfolding bulk_scrape run_batch
  bulk_scrape-refused service clock payload key_id w e low high refused =
      let some_items : (length payload.items == 0) ≡ false = ground arith in
      let not_many : ltb 50 (length payload.items) ≡ false = ground arith in
      rw (some_items, not_many, refused) refl
