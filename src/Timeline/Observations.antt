-- ===== src/Timeline/Observations.antt =====
-- The models of src/razortrust/processor_timeline.py. A value of a model is one that was accepted.
use razor_trust.Common.{ℕ, String, Bool, Option, List}

pub record PaymentObservation : Type 0 where
  pub payment_id : String
  pub status : String
  pub amount : ℕ
  pub currency : String
  pub method : Option String
  pub captured : Bool
  pub amount_refunded : ℕ
  pub refund_status : Option String
  pub international : Option Bool
  pub provider_created_at : Option ℕ
  pub source_event_id : String
  pub observed_at : ℕ

pub record RefundObservation : Type 0 where
  pub refund_id : String
  pub payment_id : String
  pub amount : ℕ
  pub currency : String
  pub status : String
  pub provider_created_at : Option ℕ
  pub source_event_id : String
  pub observed_at : ℕ

pub record DisputeObservation : Type 0 where
  pub dispute_id : String
  pub payment_id : String
  pub amount : ℕ
  pub currency : String
  pub status : String
  pub phase : Option String
  pub provider_created_at : Option ℕ
  pub source_event_id : String
  pub observed_at : ℕ

pub record SettlementObservation : Type 0 where
  pub settlement_id : String
  pub amount : ℕ
  pub currency : Option String
  pub status : String
  pub fees : ℕ
  pub tax : ℕ
  pub provider_created_at : Option ℕ
  pub source_event_id : String
  pub observed_at : ℕ

-- The `code` of an issue, with the values that its `message` names.
pub data IssueCode : Type 0 where
  unresolved_pipeline_events : ℕ → IssueCode
  missing_provider_event_time : ℕ → IssueCode
  provider_timestamp_in_future : ℕ → IssueCode
  refund_exceeds_payment : List String → IssueCode
  mixed_currencies : List String → IssueCode
  unvalidated_currency : String → IssueCode
  no_payment_history_in_window : IssueCode
  as_of_in_future : IssueCode

pub data Severity : Type 0 where
  critical warning : Severity

pub record DataQualityIssue : Type 0 where
  pub code : IssueCode
  pub severity : Severity

pub data QualityStatus : Type 0 where
  pass pass_with_warnings blocked : QualityStatus

pub record DataQualityReport : Type 0 where
  pub status : QualityStatus
  pub critical_count : ℕ
  pub warning_count : ℕ
  pub issues : List DataQualityIssue

pub record FeatureReadiness : Type 0 where
  pub model_input_ready : Bool
  pub available_source_dimensions : List String
  pub missing_source_dimensions : List String
  pub blockers : List String

pub record TimelineMetrics : Type 0 where
  pub payment_count : ℕ
  pub captured_payment_count : ℕ
  pub failed_payment_count : ℕ
  pub gross_captured_amount : ℕ
  pub amount_refunded : ℕ
  pub refund_count : ℕ
  pub processed_refund_count : ℕ
  pub dispute_count : ℕ
  pub open_dispute_count : ℕ
  pub settlement_count : ℕ
  pub methods : List (String × ℕ)
  pub currencies : List String
  pub unresolved_events : ℕ

pub record PointInTimeMerchantSnapshot : Type 0 where
  pub account_id : String
  pub as_of : ℕ
  pub window_start : ℕ
  pub lookback_hours : ℕ
  pub payments : List PaymentObservation
  pub refunds : List RefundObservation
  pub disputes : List DisputeObservation
  pub settlements : List SettlementObservation
  pub metrics : TimelineMetrics
  pub data_quality : DataQualityReport
  pub feature_readiness : FeatureReadiness
  pub snapshot_sha256 : String
