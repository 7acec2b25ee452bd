-- ===== src/Processor/Reconciliation.antt =====
-- Reconciliation items of src/razortrust/razorpay_processor.py.
use razor_trust.Processor.Keys.{reconciliation_keys, validated}
use razor_trust.Processor.Records.{NormalizedReconciliationItem}
use razor_trust.Processor.Json.{get, pick, object, string, field, Fields, Json}
use razor_trust.Processor.Read.{
  optional_boolean, fits_in, has_length, optional_text, provider_datetime, non_negative_int,
  required_text, Codec,
}
use razor_trust.Common.Fallible.{◌>>=◌}
use razor_trust.Common.{ℕ, String, ◌&&◌, Option, [], ◌∷◌}
use razor_trust.Common.Exec.{Result, err, value_error}
use razor_trust.Common.Platform.{Platform}

module _ (p : Platform) (c : Codec) where
  open p use {upper}

  -- The key by which an item that is fetched again is known again.
  abbrev pub stable_key : Fields → (entity_id entity_type : String) → Fields
  stable_key d entity_id entity_type = field "entity_id" (string entity_id) (
      field "type" (string entity_type)
        (pick ("settlement_id" ∷ "settled_at" ∷ "debit" ∷ "credit" ∷ []) d))

  normalize_reconciliation_fields :
      Fields → (year month : ℕ) → Option ℕ → (now : ℕ) → Result NormalizedReconciliationItem
  normalize_reconciliation_fields d year month day now = do
    entity_id ← required_text "entity_id" d
    entity_type ← required_text "type" d
    currency ← required_text "currency" d
    debit ← non_negative_int (get "debit" d) 0
    credit ← non_negative_int (get "credit" d) 0
    amount ← non_negative_int (get "amount" d) 0
    fee ← non_negative_int (get "fee" d) 0
    tax ← non_negative_int (get "tax" d) 0
    created_at ← provider_datetime c (get "created_at" d)
    settled_at ← provider_datetime c (get "settled_at" d)
    settlement_id ← optional_text (get "settlement_id" d)
    payment_id ← optional_text (get "payment_id" d)
    order_id ← optional_text (get "order_id" d)
    dispute_id ← optional_text (get "dispute_id" d)
    method ← optional_text (get "method" d)
    settlement_utr ← optional_text (get "settlement_utr" d)
    validated (has_length 1 32 entity_type && has_length 3 8 (upper currency) && fits_in 64 method)
        (record {
          reconciliation_id = c.hash_safe (stable_key d entity_id entity_type);
          entity_id = entity_id;
          entity_type = entity_type;
          debit = debit;
          credit = credit;
          amount = amount;
          currency = upper currency;
          fee = fee;
          tax = tax;
          on_hold = optional_boolean (get "on_hold" d);
          settled = optional_boolean (get "settled" d);
          provider_created_at = created_at;
          settled_at = settled_at;
          settlement_id = settlement_id;
          payment_id = payment_id;
          order_id = order_id;
          dispute_id = dispute_id;
          method = method;
          settlement_utr = settlement_utr;
          fetched_year = year;
          fetched_month = month;
          fetched_day = day;
          authoritative_sha256 = c.hash_safe (pick reconciliation_keys d);
          fetched_at = now;
        })

  unfoldable pub normalize_reconciliation_item :
      Json → (year month : ℕ) → Option ℕ → (now : ℕ) → Result NormalizedReconciliationItem
  unfolding normalize_reconciliation_fields
  normalize_reconciliation_item (object d) year month day now =
      normalize_reconciliation_fields d year month day now
  normalize_reconciliation_item _ year month day now = err value_error
