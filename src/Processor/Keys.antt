-- ===== src/Processor/Keys.antt =====
-- The keys that the `normalize_…` functions of src/razortrust/razorpay_processor.py keep, and the
-- constraints of their models.
use razor_trust.Processor.Records.{RazorpayStoredEvent}
use razor_trust.Processor.Read.{fits_in, has_length}
use razor_trust.Common.{
  ℕ, String, Bool, true, ◌&&◌, Option, none, some, List, [], ◌∷◌, if◌then◌else◌,
}
use razor_trust.Common.Exec.{validation_error, Result, ok, err}

-- `raw_currency.upper()` where it is long enough, else the default
abbrev pub or_default : Option String → String → String
or_default none d = d
or_default (some s) d = s

abbrev pub map_text : (String → String) → Option String → Option String
map_text f none = none
map_text f (some s) = some (f s)

abbrev pub has_optional_length : (low high : ℕ) → Option String → Bool
has_optional_length low high none = true
has_optional_length low high (some s) = has_length low high s

abbrev pub payment_keys : List String
payment_keys =
    "id" ∷ "amount" ∷ "currency" ∷ "status" ∷ "method" ∷ "order_id" ∷ "captured" ∷ "amount_refunded"
    ∷ "refund_status" ∷ "international" ∷ "created_at" ∷ []

abbrev pub refund_keys : List String
refund_keys =
    "id" ∷ "amount" ∷ "currency" ∷ "payment_id" ∷ "created_at" ∷ "status" ∷ "speed_processed"
    ∷ "speed_requested" ∷ []

abbrev pub settlement_keys : List String
settlement_keys =
    "id" ∷ "amount" ∷ "currency" ∷ "status" ∷ "fees" ∷ "tax" ∷ "utr" ∷ "created_at" ∷ []

abbrev pub dispute_keys : List String
dispute_keys =
    "id" ∷ "payment_id" ∷ "amount" ∷ "currency" ∷ "amount_deducted" ∷ "reason_code" ∷ "respond_by"
    ∷ "status" ∷ "phase" ∷ "created_at" ∷ []

abbrev pub reconciliation_keys : List String
reconciliation_keys =
    "entity_id" ∷ "type" ∷ "debit" ∷ "credit" ∷ "amount" ∷ "currency" ∷ "fee" ∷ "tax" ∷ "on_hold"
    ∷ "settled" ∷ "created_at" ∷ "settled_at" ∷ "settlement_id" ∷ "payment_id" ∷ "order_id"
    ∷ "dispute_id" ∷ "method" ∷ "settlement_utr" ∷ []

-- The model refuses what its field constraints do not allow.
abbrev pub validated {ℓ} : {A : Type ℓ} → Bool → A → Result A
validated fine r = if fine then ok r else err validation_error

-- What every model asks of the event.
abbrev pub event_fits : RazorpayStoredEvent → Bool
event_fits e = fits_in 128 e.account_id && has_length 1 128 e.provider_event_id
