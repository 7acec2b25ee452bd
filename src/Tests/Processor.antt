-- ===== src/Tests/Processor.antt =====
-- The theorems about the payment processor, on a store of one event and a provider that fails first.
use razor_trust.Common.{◌+◌}
use razor_trust.Processor.Stats.{uncounted, processing_stats_partition, all_counts}
use razor_trust.Common.Slices.{drop}
use razor_trust.Processor.Complete.{sync_reconciliation_complete}
use razor_trust.Processor.Budget.{process_event_settles, process_event_others, process_event_budget}
use razor_trust.Processor.Outcome.{is_terminal}
use razor_trust.Processor.Sync.{sync_reconciliation}
use razor_trust.Processor.Pages.{to_items, Serves}
use razor_trust.Tests.Fixtures.{naturals}
use razor_trust.Processor.Engine.{process_pending, process_event, Client}
use razor_trust.Processor.Read.{
  provider_datetime, non_negative_int, optional_text, required_text, Codec,
}
use razor_trust.Processor.Drain.{process_pending_drains, IsKeyed}
use razor_trust.Processor.Store.{
  upserted, is_pending, processing_stats, empty_store, Reconstruction, pending_ids,
}
use razor_trust.Processor.Records.{
  retry, RazorpayStoredEvent, RazorpayProcessingStats, received, ReconciliationSyncResult,
  ProcessingStatus, NormalizedReconciliationItem,
}
use razor_trust.Processor.Json.{
  boolean, end, integer, array, string, object, field, Json, Fields, get_or,
}
use razor_trust.Processor.Reconciliation.{normalize_reconciliation_item}
use razor_trust.Common.{
  ℕ, ◌+◌, ◌≤◌, ◌<◌, String, ◌≡◌, refl, ap, ◌⊎◌, true, false, Option, none, some, List, [], ◌∷◌,
  arith, leb, if◌then◌else◌, take,
}
use razor_trust.Common.Exec.{api_error, Result, ok, err}
use razor_trust.Common.Dict.{lookup}

abbrev codec : Codec
codec = record { from_timestamp = λ t. ok t; hash_safe = λ d. "digest" }

abbrev payment_payload : Fields
payment_payload = field "id" (string "pay_1") (
    field "amount" (integer 500) (
      field "currency" (string "INR")
        (field "status" (string "captured") (field "captured" (boolean true) end))))

-- The first attempt meets an unavailable provider.
abbrev answer : (event attempt : ℕ) → String → Result Fields
answer event attempt id =
    if leb attempt 1 then err (api_error (some 503) true) else ok payment_payload

abbrev provider : Client
provider = record {
  fetch_payment = answer;
  fetch_refund = answer;
  fetch_settlement = answer;
  fetch_dispute = answer;
  observe_payment_event = λ event attempt e payment. ok tt;
  now = λ event attempt. 1000 + attempt;
}

abbrev captured_event : ProcessingStatus → RazorpayStoredEvent
captured_event st = record {
  event_id = 5;
  provider_event_id = "evt_1";
  event_type = "payment.captured";
  account_id = none;
  event_created_at = some 900;
  payload_sha256 = "payload";
  summary =
      field "entity_refs" (object (field "payment" (object (field "id" (string "pay_1") end)) end))
        end;
  received_at = 950;
  processing_status = st;
  processing_attempts = 0;
}

abbrev store_of : ProcessingStatus → Reconstruction
store_of st = record empty_store { events = (5, captured_event st) ∷ [] }

process_event_settles_example :
    (s' : Reconstruction) × (e' : RazorpayStoredEvent) × (process_event naturals codec provider 3 4
        5
        (store_of received)
      ≡ (ok true, s'))
    × (lookup 5 s'.events ≡ some e')
    × (is_terminal e'.processing_status ≡ true)
unfolding lookup
process_event_settles_example =
    process_event_settles naturals codec provider 3 4 (captured_event received) (store_of received)
      refl refl (omega arith)

process_event_budget_example :
    (s' : Reconstruction) × (e' : RazorpayStoredEvent) × (process_event naturals codec provider 3 4
        5
        (store_of received)
      ≡ (ok true, s'))
    × (lookup 5 s'.events ≡ some e')
    × (0 < e'.processing_attempts)
    × ((e'.processing_attempts ≤ 3) ⊎ (e'.processing_attempts ≡ 0 + 1))
unfolding lookup
process_event_budget_example =
    process_event_budget naturals codec provider 3 4 (captured_event received) (store_of received)
      refl refl (omega arith)

process_event_others_example :
    (s' : Reconstruction) × (process_event naturals codec provider 3 4 5 (store_of received)
      ≡ (ok true, s'))
    × (lookup 6 s'.events ≡ lookup 6 (store_of received).events)
unfolding lookup
process_event_others_example =
    process_event_others naturals codec provider 3 4 (captured_event received) (store_of received)
      refl refl (omega arith) 6 (omega arith)

store-IsKeyed : IsKeyed (store_of received)
unfolding lookup
store-IsKeyed j e h = ground arith

process_pending_drains_example :
    (s' : Reconstruction) × (process_pending naturals codec provider 3 4 10 0 (store_of received)
      ≡ (ok (1, true), s'))
    × ((j : ℕ) (e : RazorpayStoredEvent)
        → lookup j s'.events ≡ some e
        → is_pending e.processing_status ≡ false)
unfolding pending_ids
process_pending_drains_example =
    process_pending_drains naturals codec provider 3 3 10 0 (store_of received) (omega arith)
      store-IsKeyed (omega arith)

processing_stats_partition_example :
    (x : RazorpayProcessingStats) × (processing_stats (store_of retry) ≡ (ok x, store_of retry))
    × (all_counts x + uncounted (store_of retry).events ≡ 1)
    × (x.pending_events + x.retry_events ≡ 1)
unfolding pending_ids
processing_stats_partition_example = processing_stats_partition (store_of retry)

abbrev raw_item : Json
raw_item = object (
    field "entity_id" (string "pay_1") (
      field "type" (string "payment")
        (field "currency" (string "INR") (field "amount" (integer 500) end))))

abbrev item_one : NormalizedReconciliationItem
item_one = record {
  reconciliation_id = "digest";
  entity_id = "pay_1";
  entity_type = "payment";
  debit = 0;
  credit = 0;
  amount = 500;
  currency = "INR";
  fee = 0;
  tax = 0;
  on_hold = none;
  settled = none;
  provider_created_at = none;
  settled_at = none;
  settlement_id = none;
  payment_id = none;
  order_id = none;
  dispute_id = none;
  method = none;
  settlement_utr = none;
  fetched_year = 2026;
  fetched_month = 7;
  fetched_day = some 1;
  authoritative_sha256 = "digest";
  fetched_at = 1000;
}

-- Three items, served by pages of two.
abbrev three_items : List Json
three_items = raw_item ∷ raw_item ∷ raw_item ∷ []

abbrev page : (count skip : ℕ) → Fields
page count skip = field "items" (array (to_items (take count (drop skip three_items)))) end

abbrev fetch_page : (year month : ℕ) → Option ℕ → (count skip : ℕ) → Result Fields
fetch_page year month day count skip = ok (page count skip)

raw_item_lem :
    normalize_reconciliation_item naturals codec raw_item 2026 7 (some 1) 1000 ≡ ok item_one
unfolding normalize_reconciliation_item get_or required_text optional_text non_negative_int
    provider_datetime
raw_item_lem = refl

Serves-page : Serves (fetch_page 2026 7 (some 1)) three_items 2 0
unfolding get_or
Serves-page k = let e : 0 + k ≡ k = omega arith in (page 2 k, ap (λ j. ok (page 2 j)) e, refl)

sync_reconciliation_complete_example :
    (r : ReconciliationSyncResult) × (sync_reconciliation naturals codec fetch_page
        (λ k. 1000)
        2026
        7
        (some 1)
        2
        20
        empty_store
      ≡ (
        ok r,
        record empty_store {
          reconciliation_items = upserted (item_one ∷ item_one ∷ item_one ∷ []) [];
        },
      ))
    × (r.fetched_items ≡ 3)
    × (r.stored_items ≡ 3)
sync_reconciliation_complete_example =
    sync_reconciliation_complete naturals codec fetch_page 1000 (λ x. item_one) 2026 7 (some 1)
      three_items 2 20 empty_store (omega arith) (omega arith) (omega arith) (omega arith)
      Serves-page (raw_item_lem, (raw_item_lem, (raw_item_lem, tt))) (omega arith)
