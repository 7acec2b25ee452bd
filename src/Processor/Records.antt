-- ===== src/Processor/Records.antt =====
-- The models of src/razortrust/razorpay_processor.py, and the stored webhook event of
-- src/razortrust/integrations/razorpay.py.
use razor_trust.Common.{ℕ, String, Bool, Option, str_eq, ◌==◌}
use razor_trust.Processor.Json.{Fields}

-- `processing_status`, a string: one of the six that the store counts, or another one.
pub data ProcessingStatus : Type 0 where
  received processing processed retry failed skipped : ProcessingStatus
  other_status : String → ProcessingStatus

pub record RazorpayStoredEvent : Type 0 where
  pub event_id : ℕ
  pub provider_event_id : String
  pub event_type : String
  pub account_id : Option String
  pub event_created_at : Option ℕ
  pub payload_sha256 : String
  pub summary : Fields
  pub received_at : ℕ
  pub processing_status : ProcessingStatus
  pub processing_attempts : ℕ

pub record NormalizedProcessorPayment : Type 0 where
  pub payment_id : String
  pub account_id : Option String
  pub order_id : Option String
  pub amount : ℕ
  pub currency : String
  pub status : String
  pub method : Option String
  pub captured : Bool
  pub amount_refunded : ℕ
  pub refund_status : Option String
  pub international : Option Bool
  pub provider_created_at : Option ℕ
  pub source_event_id : String
  pub source_event_created_at : Option ℕ
  pub authoritative_sha256 : String
  pub enriched_at : ℕ

pub record NormalizedProcessorRefund : Type 0 where
  pub refund_id : String
  pub account_id : Option String
  pub payment_id : String
  pub amount : ℕ
  pub currency : String
  pub status : String
  pub speed_requested : Option String
  pub speed_processed : Option String
  pub provider_created_at : Option ℕ
  pub source_event_id : String
  pub source_event_created_at : Option ℕ
  pub authoritative_sha256 : String
  pub enriched_at : ℕ

pub record NormalizedProcessorSettlement : Type 0 where
  pub settlement_id : String
  pub account_id : Option String
  pub amount : ℕ
  pub currency : Option String
  pub status : String
  pub fees : ℕ
  pub tax : ℕ
  pub utr : Option String
  pub provider_created_at : Option ℕ
  pub source_event_id : String
  pub source_event_created_at : Option ℕ
  pub authoritative_sha256 : String
  pub enriched_at : ℕ

pub record NormalizedProcessorDispute : Type 0 where
  pub dispute_id : String
  pub account_id : Option String
  pub payment_id : String
  pub amount : ℕ
  pub currency : String
  pub amount_deducted : ℕ
  pub reason_code : Option String
  pub status : String
  pub phase : Option String
  pub respond_by : Option ℕ
  pub provider_created_at : Option ℕ
  pub source_event_id : String
  pub source_event_created_at : Option ℕ
  pub authoritative_sha256 : String
  pub enriched_at : ℕ

pub record NormalizedReconciliationItem : Type 0 where
  pub reconciliation_id : String
  pub entity_id : String
  pub entity_type : String
  pub debit : ℕ
  pub credit : ℕ
  pub amount : ℕ
  pub currency : String
  pub fee : ℕ
  pub tax : ℕ
  pub on_hold : Option Bool
  pub settled : Option Bool
  pub provider_created_at : Option ℕ
  pub settled_at : Option ℕ
  pub settlement_id : Option String
  pub payment_id : Option String
  pub order_id : Option String
  pub dispute_id : Option String
  pub method : Option String
  pub settlement_utr : Option String
  pub fetched_year : ℕ
  pub fetched_month : ℕ
  pub fetched_day : Option ℕ
  pub authoritative_sha256 : String
  pub fetched_at : ℕ

pub record RazorpayProcessingStats : Type 0 where
  pub pending_events : ℕ
  pub processing_events : ℕ
  pub processed_events : ℕ
  pub retry_events : ℕ
  pub failed_events : ℕ
  pub skipped_events : ℕ
  pub normalized_payments : ℕ
  pub normalized_refunds : ℕ
  pub normalized_settlements : ℕ
  pub normalized_disputes : ℕ
  pub reconciliation_items : ℕ
  pub last_processed_at : Option ℕ

pub record ReconciliationSyncResult : Type 0 where
  pub fetched_items : ℕ
  pub stored_items : ℕ
  pub pages : ℕ

abbrev status_rank : ProcessingStatus → ℕ
status_rank received = 0
status_rank processing = 1
status_rank processed = 2
status_rank retry = 3
status_rank failed = 4
status_rank skipped = 5
status_rank (other_status s) = 6

abbrev pub status_eq : ProcessingStatus → ProcessingStatus → Bool
status_eq (other_status s) (other_status t) = str_eq s t
status_eq a b = status_rank a == status_rank b
