-- ===== src/Checkout/Events.antt =====
-- Payments of checkout sessions in `SqlCheckoutBridgeStore` (src/razortrust/checkout_bridge.py).
use razor_trust.Checkout.Store.{
  write_order, replace_telemetry, updated_order, find_telemetry, lookup_error, find_order,
}
use razor_trust.Checkout.Rules.{derive_checkout_lifecycle, lifecycle_eq}
use razor_trust.Checkout.Rows.{
  CheckoutPaymentAttemptRow, paid, Lifecycle, CheckoutStore, CheckoutOrderRow, TelemetryRow,
}
use razor_trust.Common.{
  ℕ, String, Bool, false, not, ◌||◌, Option, none, some, List, [], ◌∷◌, ◌++◌, str_eq, ltb, ◌==◌,
  if◌then◌else◌, length,
}
use razor_trust.Common.Exec.{
  Result, ok, err, Exec, pure, lift, gets, or_raise, modify, raise_if, ◌>>=◌, ◌>>◌, value_error,
}
use razor_trust.Database.Queries.{first_where}
use razor_trust.Timeline.Latest.{keep_if}
use razor_trust.Checkout.Store.{find_by_order}
use razor_trust.Common.Exec.{Exec, pure, gets, or_raise, modify, raise_if, ◌>>=◌, ◌>>◌, value_error}

-- `value not in {None, payment_id}`
abbrev pub is_other : Option String → String → Bool
is_other none payment_id = false
is_other (some x) payment_id = not (str_eq x payment_id)

abbrev pub max_of : ℕ → ℕ → ℕ
max_of a b = if ltb a b then b else a

abbrev pub bound_telemetry : String → TelemetryRow → TelemetryRow
bound_telemetry payment_id t = record t { payment_id = some payment_id }

-- A webhook's payment
pub record PaymentEvent : Type 0 where
  pub event_type : String
  pub source_event_id : String
  pub payment_id : String
  pub payment_status : String
  pub captured : Bool
  pub observed_at : ℕ

abbrev pub new_attempt : String → PaymentEvent → CheckoutOrderRow → CheckoutPaymentAttemptRow
new_attempt order_id e r = record {
  checkout_session_id = r.checkout_session_id;
  account_id = r.account_id;
  razorpay_order_id = order_id;
  razorpay_payment_id = e.payment_id;
  payment_status = e.payment_status;
  captured = e.captured;
  last_event_type = e.event_type;
  last_source_event_id = e.source_event_id;
  first_seen_at = e.observed_at;
  last_seen_at = e.observed_at;
}

abbrev pub seen_again : PaymentEvent → CheckoutPaymentAttemptRow → CheckoutPaymentAttemptRow
seen_again e a = record a {
  payment_status = e.payment_status;
  captured = e.captured;
  last_event_type = e.event_type;
  last_source_event_id = e.source_event_id;
  last_seen_at = e.observed_at;
}

abbrev pub find_attempt : String → List CheckoutPaymentAttemptRow → Option CheckoutPaymentAttemptRow
find_attempt payment_id = first_where (λ a. str_eq a.razorpay_payment_id payment_id)

-- `UPDATE` of the row with this payment
unfoldable pub replace_attempt :
    CheckoutPaymentAttemptRow → List CheckoutPaymentAttemptRow → List CheckoutPaymentAttemptRow
replace_attempt a [] = []
replace_attempt a (x ∷ xs) =
    let rest = replace_attempt a xs in
    if str_eq x.razorpay_payment_id a.razorpay_payment_id then a ∷ rest else x ∷ rest

abbrev pub is_bound_elsewhere : String → CheckoutOrderRow → CheckoutPaymentAttemptRow → Bool
is_bound_elsewhere order_id r a =
    not (a.checkout_session_id == r.checkout_session_id)
    || not (str_eq a.razorpay_order_id order_id)

-- The attempts with that of the event.
unfoldable pub with_attempt :
    String
    → PaymentEvent
    → CheckoutOrderRow
    → List CheckoutPaymentAttemptRow
    → Result (List CheckoutPaymentAttemptRow)
with_attempt order_id e r xs = elim (find_attempt e.payment_id xs) [
  | none ↦ ok (xs ++ new_attempt order_id e r ∷ [])
  | some a ↦
      if is_bound_elsewhere order_id r a
      then err value_error
      else ok (replace_attempt (seen_again e a) xs)
]

unfoldable pub attempts_of_session : ℕ → List CheckoutPaymentAttemptRow → ℕ
attempts_of_session id xs = length (keep_if (λ a. a.checkout_session_id == id) xs)

-- The telemetry of a paid session, where it is not bound to another payment.
unfoldable pub bind_telemetry : String → Option ℕ → CheckoutStore → List TelemetryRow
bind_telemetry payment_id none s = s.telemetry
bind_telemetry payment_id (some id) s = elim (find_telemetry id s) [
  | none ↦ s.telemetry
  | some t ↦
      if is_other t.payment_id payment_id
      then s.telemetry
      else replace_telemetry (bound_telemetry payment_id t) s.telemetry
]

module _ (lower strip : String → String) where
  -- The lifecycle, and the provider's status that goes with it.
  abbrev pub lifecycle_after : String → CheckoutOrderRow → Lifecycle
  lifecycle_after payment_status r =
      derive_checkout_lifecycle lower strip (some payment_status) (some r.provider_status)

  abbrev pub provider_after : String → CheckoutOrderRow → String
  provider_after payment_status r =
      if lifecycle_eq (lifecycle_after payment_status r) paid then "paid" else r.provider_status

  abbrev pub verified_order : String → String → (now : ℕ) → CheckoutOrderRow → CheckoutOrderRow
  verified_order payment_id status now r = record r {
    razorpay_payment_id = some payment_id;
    provider_attempts = max_of r.provider_attempts 1;
    authoritative_payment_status = some status;
    last_payment_status = some status;
    lifecycle_status = lifecycle_after status r;
    provider_status = provider_after status r;
    signature_verified_at = some now;
    updated_at = now;
  }

  unfoldable pub bind_verified_payment :
      ℕ → (payment_id authoritative_status : String) (now : ℕ) → Exec CheckoutStore CheckoutOrderRow
  bind_verified_payment id payment_id authoritative_status now = do
    r ← or_raise (find_order id (← gets (λ s. s))) lookup_error
    raise_if (is_other r.razorpay_payment_id payment_id) value_error
    telemetry_id ← or_raise r.telemetry_id value_error
    t ← or_raise (find_telemetry telemetry_id (← gets (λ s. s))) value_error
    raise_if (is_other t.payment_id payment_id) value_error
    write_order (verified_order payment_id authoritative_status now r)
        (λ s. replace_telemetry (bound_telemetry payment_id t) s.telemetry)

  -- The session after an event, with the number of its attempts.
  abbrev pub seen_order : PaymentEvent → (attempts : ℕ) → CheckoutOrderRow → CheckoutOrderRow
  seen_order e attempts r = record r {
    provider_attempts = max_of r.provider_attempts attempts;
    last_payment_status = some e.payment_status;
    authoritative_payment_status = some e.payment_status;
    lifecycle_status = lifecycle_after e.payment_status r;
    updated_at = e.observed_at;
  }

  unfoldable pub observed_order :
      PaymentEvent → (attempts : ℕ) → CheckoutOrderRow → CheckoutOrderRow
  observed_order e attempts r =
      let row = seen_order e attempts r in
      let status = lower (strip e.payment_status) in
      if lifecycle_eq (lifecycle_after e.payment_status r) paid
      then record row {
        provider_status = "paid";
        razorpay_payment_id = some e.payment_id;
        webhook_confirmed_at = some e.observed_at;
      }
      else if str_eq status "failed"
      then row
      else if str_eq status "authorized"
      then record row { razorpay_payment_id = some e.payment_id }
      else row

  unfoldable pub telemetry_after :
      PaymentEvent → CheckoutOrderRow → CheckoutStore → List TelemetryRow
  telemetry_after e r s =
      if lifecycle_eq (lifecycle_after e.payment_status r) paid
      then bind_telemetry e.payment_id r.telemetry_id s
      else s.telemetry

  unfoldable pub observe_order :
      String → PaymentEvent → Option CheckoutOrderRow → Exec CheckoutStore (Unit {0})
  observe_order order_id e none = pure tt
  observe_order order_id e (some r) = do
    old ← gets (λ s. s.attempts)
    attempts ← lift (with_attempt order_id e r old)
    let n = attempts_of_session r.checkout_session_id attempts
    modify λ s. record (updated_order (observed_order e n r) s) {
      attempts = attempts;
      telemetry = telemetry_after e r s;
    }

  unfoldable pub observe_payment_event :
      Option String → PaymentEvent → Exec CheckoutStore (Unit {0})
  observe_payment_event none e = pure tt
  observe_payment_event (some order_id) e =
      if str_eq order_id ""
      then pure tt
      else (gets (find_by_order order_id) >>= observe_order order_id e)
