-- ===== src/Processor/Normalize.antt =====
-- The `normalize_…` functions of src/razortrust/razorpay_processor.py: what the provider answers, as a
-- record without private data, or an exception.
use razor_trust.Processor.Keys.{
  payment_keys, dispute_keys, refund_keys, settlement_keys, has_optional_length, event_fits,
  map_text, validated, or_default,
}
use razor_trust.Processor.Records.{
  NormalizedProcessorDispute, NormalizedProcessorRefund, NormalizedProcessorSettlement,
  NormalizedProcessorPayment, RazorpayStoredEvent,
}
use razor_trust.Processor.Json.{boolean, get_or, truth, pick, get, Fields}
use razor_trust.Processor.Read.{
  optional_boolean, fits_in, has_length, long_text, optional_text, provider_datetime,
  non_negative_int, required_text, required_amount, prefixed_text, Codec,
}
use razor_trust.Common.Fallible.{◌>>=◌}
use razor_trust.Common.{ℕ, String, ◌&&◌, str_eq}
use razor_trust.Common.Exec.{Result}
use razor_trust.Common.Platform.{Platform}

module _ (p : Platform) (c : Codec) where
  open p use {upper}

  unfoldable pub normalize_payment :
      Fields → RazorpayStoredEvent → (now : ℕ) → Result NormalizedProcessorPayment
  normalize_payment d e now = do
    payment_id ← prefixed_text "pay_" "id" d
    amount ← required_amount (get "amount" d)
    currency ← required_text "currency" d
    status ← required_text "status" d
    created_at ← provider_datetime c (get "created_at" d)
    order_id ← optional_text (get "order_id" d)
    method ← optional_text (get "method" d)
    amount_refunded ← non_negative_int (get "amount_refunded" d) 0
    refund_status ← optional_text (get "refund_status" d)
    validated
        (event_fits e
          && has_length 3 8 (upper currency)
          && has_length 1 32 status
          && fits_in 64 method
          && fits_in 32 refund_status)
        (record {
          payment_id = payment_id;
          account_id = e.account_id;
          order_id = order_id;
          amount = amount;
          currency = upper currency;
          status = status;
          method = method;
          captured = truth (get_or (boolean (str_eq status "captured")) "captured" d);
          amount_refunded = amount_refunded;
          refund_status = refund_status;
          international = optional_boolean (get "international" d);
          provider_created_at = created_at;
          source_event_id = e.provider_event_id;
          source_event_created_at = e.event_created_at;
          authoritative_sha256 = c.hash_safe (pick payment_keys d);
          enriched_at = now;
        })

  unfoldable pub normalize_refund :
      Fields
      → RazorpayStoredEvent
      → (payment_currency : String) (now : ℕ) → Result NormalizedProcessorRefund
  normalize_refund d e payment_currency now = do
    refund_id ← prefixed_text "rfnd_" "id" d
    payment_id ← prefixed_text "pay_" "payment_id" d
    amount ← required_amount (get "amount" d)
    status ← required_text "status" d
    speed_requested ← optional_text (get "speed_requested" d)
    speed_processed ← optional_text (get "speed_processed" d)
    created_at ← provider_datetime c (get "created_at" d)
    let currency = upper (or_default (long_text (get "currency" d)) payment_currency)
    validated
        (event_fits e
          && has_length 3 8 currency
          && has_length 1 32 status
          && fits_in 32 speed_requested
          && fits_in 32 speed_processed)
        (record {
          refund_id = refund_id;
          account_id = e.account_id;
          payment_id = payment_id;
          amount = amount;
          currency = currency;
          status = status;
          speed_requested = speed_requested;
          speed_processed = speed_processed;
          provider_created_at = created_at;
          source_event_id = e.provider_event_id;
          source_event_created_at = e.event_created_at;
          authoritative_sha256 = c.hash_safe (pick refund_keys d);
          enriched_at = now;
        })

  unfoldable pub normalize_settlement :
      Fields → RazorpayStoredEvent → (now : ℕ) → Result NormalizedProcessorSettlement
  normalize_settlement d e now = do
    settlement_id ← prefixed_text "setl_" "id" d
    amount ← required_amount (get "amount" d)
    status ← required_text "status" d
    fees ← non_negative_int (get "fees" d) 0
    tax ← non_negative_int (get "tax" d) 0
    utr ← optional_text (get "utr" d)
    created_at ← provider_datetime c (get "created_at" d)
    let currency = map_text upper (long_text (get "currency" d))
    validated (event_fits e && has_optional_length 3 8 currency && has_length 1 32 status) (record {
      settlement_id = settlement_id;
      account_id = e.account_id;
      amount = amount;
      currency = currency;
      status = status;
      fees = fees;
      tax = tax;
      utr = utr;
      provider_created_at = created_at;
      source_event_id = e.provider_event_id;
      source_event_created_at = e.event_created_at;
      authoritative_sha256 = c.hash_safe (pick settlement_keys d);
      enriched_at = now;
    })

  unfoldable pub normalize_dispute :
      Fields → RazorpayStoredEvent → (now : ℕ) → Result NormalizedProcessorDispute
  normalize_dispute d e now = do
    dispute_id ← prefixed_text "disp_" "id" d
    payment_id ← prefixed_text "pay_" "payment_id" d
    amount ← required_amount (get "amount" d)
    currency ← required_text "currency" d
    status ← required_text "status" d
    amount_deducted ← non_negative_int (get "amount_deducted" d) 0
    reason_code ← optional_text (get "reason_code" d)
    phase ← optional_text (get "phase" d)
    respond_by ← provider_datetime c (get "respond_by" d)
    created_at ← provider_datetime c (get "created_at" d)
    validated
        (event_fits e
          && has_length 3 8 (upper currency)
          && has_length 1 32 status
          && fits_in 64 phase)
        (record {
          dispute_id = dispute_id;
          account_id = e.account_id;
          payment_id = payment_id;
          amount = amount;
          currency = upper currency;
          amount_deducted = amount_deducted;
          reason_code = reason_code;
          status = status;
          phase = phase;
          respond_by = respond_by;
          provider_created_at = created_at;
          source_event_id = e.provider_event_id;
          source_event_created_at = e.event_created_at;
          authoritative_sha256 = c.hash_safe (pick dispute_keys d);
          enriched_at = now;
        })
