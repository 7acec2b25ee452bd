-- ===== src/Processor/Store.antt =====
-- `InMemoryRazorpayReconstructionStore` of src/razortrust/razorpay_processor.py.
use razor_trust.Processor.Records.{
  failed, processing, received, status_eq, processed, skipped, NormalizedProcessorRefund,
  ProcessingStatus, retry, NormalizedReconciliationItem, RazorpayProcessingStats,
  NormalizedProcessorSettlement, NormalizedProcessorDispute, RazorpayStoredEvent,
  NormalizedProcessorPayment,
}
use razor_trust.Common.{
  ℕ, suc, ◌+◌, String, Bool, true, false, not, Option, none, some, List, [], ◌∷◌, ltb,
  if◌then◌else◌, length, take,
}
use razor_trust.Common.Exec.{ok, Exec, pure, gets, or_raise, modify, ◌>>=◌, ◌>>◌, key_error}
use razor_trust.Common.Dict.{Dict, lookup, insert}
use razor_trust.Common.Table.{Table, put_entry}

-- The text of an error: a word, or `RazorpayApiError` with the status code.
pub data ErrorText : Type 0 where
  word : String → ErrorText
  api_status : ℕ → ErrorText

pub record Reconstruction : Type 0 where
  pub events : Dict RazorpayStoredEvent
  pub payments : Table NormalizedProcessorPayment
  pub refunds : Table NormalizedProcessorRefund
  pub settlements : Table NormalizedProcessorSettlement
  pub disputes : Table NormalizedProcessorDispute
  pub reconciliation_items : Table NormalizedReconciliationItem
  pub last_errors : Dict ErrorText
  pub processed_at : Dict ℕ

abbrev pub empty_store : Reconstruction
empty_store = record {
  events = [];
  payments = [];
  refunds = [];
  settlements = [];
  disputes = [];
  reconciliation_items = [];
  last_errors = [];
  processed_at = [];
}

abbrev pub added : RazorpayStoredEvent → Reconstruction → Reconstruction
added e s = record s { events = insert e.event_id e s.events }

unfoldable pub add_event : RazorpayStoredEvent → Exec Reconstruction (Unit {0})
add_event e = modify (added e)

unfoldable pub get_event : ℕ → Exec Reconstruction (Option RazorpayStoredEvent)
get_event event_id = gets λ s. lookup event_id s.events

-- `processing_status in {"RECEIVED", "RETRY"}`
abbrev pub is_pending : ProcessingStatus → Bool
is_pending received = true
is_pending retry = true
is_pending _ = false

abbrev pub claimed : RazorpayStoredEvent → RazorpayStoredEvent
claimed e = record e {
  processing_status = processing;
  processing_attempts = e.processing_attempts + 1;
}

abbrev claim : ℕ → Option RazorpayStoredEvent → Exec Reconstruction (Option RazorpayStoredEvent)
claim event_id none = pure none
claim event_id (some e) = if not (is_pending e.processing_status) then pure none else λ s.
    (ok (some (claimed e)), record s { events = insert event_id (claimed e) s.events })

unfoldable pub claim_event : ℕ → Exec Reconstruction (Option RazorpayStoredEvent)
claim_event event_id = do e ← gets (λ s. lookup event_id s.events); claim event_id e

abbrev pub marked :
    ℕ → ProcessingStatus → RazorpayStoredEvent → (at : Option ℕ) → Reconstruction → Reconstruction
marked event_id status e none s = record s {
  events = insert event_id (record e { processing_status = status }) s.events;
}
marked event_id status e (some now) s = record s {
  events = insert event_id (record e { processing_status = status }) s.events;
  processed_at = insert event_id now s.processed_at;
}

-- `_mark`; without a time, `processed=False`
unfoldable pub mark : ℕ → ProcessingStatus → (at : Option ℕ) → Exec Reconstruction (Unit {0})
mark event_id status at = do
  e ← or_raise (lookup event_id (← gets (λ s. s.events))) key_error
  modify (marked event_id status e at)

abbrev noted : ℕ → ErrorText → Reconstruction → Reconstruction
noted event_id text s = record s { last_errors = insert event_id text s.last_errors }

unfoldable pub mark_skipped : ℕ → ErrorText → (now : ℕ) → Exec Reconstruction (Unit {0})
unfolding mark
mark_skipped event_id reason now = do
  modify (noted event_id reason)
  mark event_id skipped (some now)

unfoldable pub mark_retry : ℕ → ErrorText → Exec Reconstruction (Unit {0})
unfolding mark
mark_retry event_id error = do modify (noted event_id error); mark event_id retry none

unfoldable pub mark_failed : ℕ → ErrorText → (now : ℕ) → Exec Reconstruction (Unit {0})
unfolding mark
mark_failed event_id error now = do modify (noted event_id error); mark event_id failed (some now)

abbrev stored_payment : NormalizedProcessorPayment → Reconstruction → Reconstruction
stored_payment x s = record s { payments = put_entry x.payment_id x s.payments }

unfoldable pub complete_payment_event :
    ℕ → NormalizedProcessorPayment → (now : ℕ) → Exec Reconstruction (Unit {0})
unfolding mark
complete_payment_event event_id payment now = do
  modify (stored_payment payment)
  mark event_id processed (some now)

unfoldable pub complete_refund_event :
    ℕ
    → NormalizedProcessorRefund
    → NormalizedProcessorPayment
    → (now : ℕ) → Exec Reconstruction (Unit {0})
unfolding mark
complete_refund_event event_id refund payment now = do
  modify λ s. record s { refunds = put_entry refund.refund_id refund s.refunds }
  modify (stored_payment payment)
  mark event_id processed (some now)

unfoldable pub complete_settlement_event :
    ℕ → NormalizedProcessorSettlement → (now : ℕ) → Exec Reconstruction (Unit {0})
unfolding mark
complete_settlement_event event_id settlement now = do
  modify λ s. record s { settlements = put_entry settlement.settlement_id settlement s.settlements }
  mark event_id processed (some now)

unfoldable pub complete_dispute_event :
    ℕ
    → NormalizedProcessorDispute
    → NormalizedProcessorPayment
    → (now : ℕ) → Exec Reconstruction (Unit {0})
unfolding mark
complete_dispute_event event_id dispute payment now = do
  modify λ s. record s { disputes = put_entry dispute.dispute_id dispute s.disputes }
  modify (stored_payment payment)
  mark event_id processed (some now)

-- The loop of `upsert_reconciliation_items`
unfoldable pub upserted :
    List NormalizedReconciliationItem
    → Table NormalizedReconciliationItem
    → Table NormalizedReconciliationItem
upserted [] t = t
upserted (x ∷ xs) t = upserted xs (put_entry x.reconciliation_id x t)

unfoldable pub upsert_reconciliation_items :
    List NormalizedReconciliationItem → Exec Reconstruction ℕ
upsert_reconciliation_items items = do
  modify λ s. record s { reconciliation_items = upserted items s.reconciliation_items }
  pure (length items)

unfoldable pub pending_ids : Dict RazorpayStoredEvent → List ℕ
pending_ids [] = []
pending_ids ((k, e) ∷ d) =
    let rest = pending_ids d in if is_pending e.processing_status then k ∷ rest else rest

unfoldable pub pending_event_ids : ℕ → Exec Reconstruction (List ℕ)
pending_event_ids limit = gets λ s. take limit (pending_ids s.events)

-- The in-memory store has no stale claims.
unfoldable pub recover_stale_processing : (stale_before : ℕ) → Exec Reconstruction ℕ
recover_stale_processing stale_before = pure 0

-- `statuses.count(status)`
unfoldable pub count_status : ProcessingStatus → Dict RazorpayStoredEvent → ℕ
count_status st [] = 0
count_status st ((k, e) ∷ d) =
    let rest = count_status st d in if status_eq e.processing_status st then suc rest else rest

-- `max(…, default=None)`
unfoldable pub latest : Dict ℕ → Option ℕ
latest [] = none
latest ((k, t) ∷ d) = elim (latest d) [ none ↦ some t | some u ↦ some (if ltb t u then u else t) ]

unfoldable pub processing_stats : Exec Reconstruction RazorpayProcessingStats
processing_stats = gets λ s. record {
  pending_events = count_status received s.events;
  processing_events = count_status processing s.events;
  processed_events = count_status processed s.events;
  retry_events = count_status retry s.events;
  failed_events = count_status failed s.events;
  skipped_events = count_status skipped s.events;
  normalized_payments = length s.payments;
  normalized_refunds = length s.refunds;
  normalized_settlements = length s.settlements;
  normalized_disputes = length s.disputes;
  reconciliation_items = length s.reconciliation_items;
  last_processed_at = latest s.processed_at;
}
