-- ===== src/Checkout/Rules.antt =====
-- The signature, the check of a payment and the lifecycle of src/razortrust/checkout_bridge.py.
use razor_trust.Checkout.Rows.{
  pending_provider_order, provider_order_failed, open_order, authorized, attempted, attempt_failed,
  paid, abandoned, Lifecycle,
}
use razor_trust.Processor.Extract.{is_text}
use razor_trust.Processor.Json.{boolean, get, string, integer, Fields, Json}
use razor_trust.Common.Fallible.{◌>>◌, refuse_if}
use razor_trust.Common.{
  ℕ, String, Bool, false, not, ◌&&◌, ◌||◌, Option, none, some, str_eq, ◌==◌, if◌then◌else◌,
}
use razor_trust.Common.Exec.{Result, ok, err, value_error}

abbrev pub text_or_empty : Option String → String
text_or_empty none = ""
text_or_empty (some s) = s

abbrev pub lifecycle_eq : Lifecycle → Lifecycle → Bool
lifecycle_eq a b = rank a == rank b
  where
    rank : Lifecycle → ℕ
    rank pending_provider_order = 0
    rank provider_order_failed = 1
    rank open_order = 2
    rank authorized = 3
    rank attempted = 4
    rank attempt_failed = 5
    rank paid = 6
    rank abandoned = 7

-- `lower` and `strip` are the methods of `str`.
module _ (lower strip : String → String) where
  -- HMAC-SHA256 of `order_id|payment_id` under a secret is a library. The signature is ASCII: of other
  -- texts `compare_digest` raises.
  unfoldable pub verify_checkout_signature :
      (hmac : (secret order_id payment_id : String) → String)
      (order_id payment_id signature secret : String)
      → Bool
  verify_checkout_signature hmac order_id payment_id signature secret =
      not (str_eq order_id "" || str_eq payment_id "" || str_eq signature "" || str_eq secret "")
      && str_eq (hmac secret order_id payment_id) (lower (strip signature))

  unfoldable pub derive_checkout_lifecycle :
      (payment_status order_status : Option String) → Lifecycle
  derive_checkout_lifecycle payment_status order_status =
      let payment = lower (strip (text_or_empty payment_status)) in
      let order = lower (strip (text_or_empty order_status)) in
      if str_eq order "paid" || str_eq payment "captured" || str_eq payment "refunded"
      then paid
      else if str_eq payment "authorized"
      then authorized
      else if str_eq payment "failed"
      then attempt_failed
      else if str_eq order "attempted"
      then attempted
      else open_order

-- `value == n` for a value of a reply; a reply that writes an integer as a float is not modelled.
abbrev pub is_number : ℕ → Json → Bool
is_number n (integer m) = m == n
is_number n (boolean b) = (if b then 1 else 0) == n
is_number n _ = false

abbrev pub successful_status : Json → Result String
successful_status (string s) =
    if str_eq s "authorized" || str_eq s "captured" || str_eq s "refunded"
    then ok s
    else err value_error
successful_status _ = err value_error

unfoldable pub validate_authoritative_payment :
    (stored_order_id : String) (stored_amount : ℕ) (stored_currency payment_id : String)
    → Fields
    → Result String
validate_authoritative_payment stored_order_id stored_amount stored_currency payment_id payment = do
  refuse_if (not (is_text payment_id (get "id" payment))) value_error
  refuse_if (not (is_text stored_order_id (get "order_id" payment))) value_error
  refuse_if (not (is_number stored_amount (get "amount" payment))) value_error
  refuse_if (not (is_text stored_currency (get "currency" payment))) value_error
  successful_status (get "status" payment)
