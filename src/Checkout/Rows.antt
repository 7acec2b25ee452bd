-- ===== src/Checkout/Rows.antt =====
-- The tables of src/razortrust/checkout_bridge.py and the telemetry that a session is bound to.
use razor_trust.Common.{ℕ, String, Bool, Option, List, []}

-- `lifecycle_status`, which is one of eight strings.
pub data Lifecycle : Type 0 where
  pending_provider_order provider_order_failed open_order authorized attempted : Lifecycle
  attempt_failed paid abandoned : Lifecycle

pub record CheckoutOrderRow : Type 0 where
  pub checkout_session_id : ℕ
  pub account_id : String
  pub razorpay_order_id : Option String
  pub razorpay_payment_id : Option String
  pub amount : ℕ
  pub currency : String
  pub receipt : String
  pub provider_status : String
  pub provider_attempts : ℕ
  pub lifecycle_status : Lifecycle
  pub last_payment_status : Option String
  pub device_fingerprint_sha256 : String
  pub customer_geo : String
  pub client_event_at : Option ℕ
  pub telemetry_id : Option ℕ
  pub authoritative_payment_status : Option String
  pub signature_verified_at : Option ℕ
  pub webhook_confirmed_at : Option ℕ
  pub last_provider_reconciled_at : Option ℕ
  pub expires_at : Option ℕ
  pub abandoned_at : Option ℕ
  pub created_at : ℕ
  pub updated_at : ℕ

-- `created_at` is `first_seen_at` and `updated_at` is `last_seen_at`.
pub record CheckoutPaymentAttemptRow : Type 0 where
  pub checkout_session_id : ℕ
  pub account_id : String
  pub razorpay_order_id : String
  pub razorpay_payment_id : String
  pub payment_status : String
  pub captured : Bool
  pub last_event_type : String
  pub last_source_event_id : String
  pub first_seen_at : ℕ
  pub last_seen_at : ℕ

-- `FirstPartyTelemetryRow`, without its digest, which is that of the other columns.
pub record TelemetryRow : Type 0 where
  pub telemetry_id : ℕ
  pub account_id : String
  pub order_id : String
  pub payment_id : Option String
  pub device_fingerprint_sha256 : String
  pub customer_geo : String
  pub client_event_at : Option ℕ
  pub observed_at : ℕ

pub record CheckoutStore : Type 0 where
  pub orders : List CheckoutOrderRow
  pub attempts : List CheckoutPaymentAttemptRow
  pub telemetry : List TelemetryRow

abbrev pub empty_checkout : CheckoutStore
empty_checkout = record { orders = []; attempts = []; telemetry = [] }
