-- ===== src/Domain/Hold.antt =====
-- Holds, merchants' baselines and transactions (src/razortrust/domain.py).
use razor_trust.Common.{ℕ, String, Bool, Option, List}
use razor_trust.Domain.Enums.{HoldState}

pub record HoldCreate : Type 0 where
  pub request_id : ℕ
  pub merchant_id : String
  pub source_event_id : String
  pub triggered_at : ℕ
  pub reason_code : Option String

pub record HoldCase : Type 0 where
  pub hold_id : ℕ
  pub request_id : ℕ
  pub merchant_id : String
  pub source_event_id : String
  pub triggered_at : ℕ
  pub reason_code : Option String
  pub state : HoldState
  pub evidence_round : ℕ
  pub created_at : ℕ
  pub updated_at : ℕ

pub record MerchantBaseline (F : Type 0) : Type 0 where
  pub volume_mean : F
  pub volume_std : F
  pub gmv_mean : F
  pub gmv_std : F
  pub ticket_size_mean : F
  pub ticket_size_std : F
  pub refund_rate_mean : F
  pub refund_rate_std : F
  pub chargeback_rate_mean : F
  pub chargeback_rate_std : F
  pub known_devices : List String
  pub known_geos : List String
  pub amount_bin_edges : List F
  pub amount_bin_probabilities : List F

-- `approved` is `auth_status`, which is one of two literals.
pub record TransactionEvent (F : Type 0) : Type 0 where
  pub transaction_id : String
  pub merchant_id : String
  pub customer_id : Option String
  pub ring_id : Option String
  pub timestamp : ℕ
  pub amount : F
  pub device_fingerprint : String
  pub customer_geo : String
  pub approved : Bool
  pub refund_timestamp : Option ℕ
  pub chargeback_timestamp : Option ℕ

pub record HoldEvaluationInput (F : Type 0) : Type 0 where
  pub baseline : MerchantBaseline F
  pub transactions : List (TransactionEvent F)
  pub cohort : String
  pub window_hours : ℕ
