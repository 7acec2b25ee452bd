-- ===== src/Tests/Checkout.antt =====
-- The theorems about checkout sessions, on a session that is paid and one that expires.
use razor_trust.Checkout.Stats.{checkout_stats, sessions_in}
use razor_trust.Checkout.Late.{observe-paid_order, IsTakenOver}
use razor_trust.Checkout.Rows.{CheckoutOrderRow, paid}
use razor_trust.Common.Exec.{err, ok, value_error}
use razor_trust.Checkout.Rules.{derive_checkout_lifecycle}
use razor_trust.Database.Queries.{first_where}
use razor_trust.Timeline.Latest.{keep_if}
use razor_trust.Checkout.Reconcile.{Outside, reconcile_open_orders}
use razor_trust.Checkout.Events.{observed_order, with_attempt, observe_order, observe_payment_event}
use razor_trust.Checkout.Store.{
  pending_row, replace_order, write_order, insert_order, create_pending, finalize_provider_order,
}
use razor_trust.Checkout.Counts.{reconcile_open_orders_counts, CountsAgree}
use razor_trust.Processor.Json.{get_or, end, integer, string, field, Fields}
use razor_trust.Checkout.Store.{PendingOrder}
use razor_trust.Checkout.Events.{PaymentEvent}
use razor_trust.Checkout.Agreement.{OrdersAgree}
use razor_trust.Checkout.Reconcile.{open_orders, CheckoutReconcileResult}
use razor_trust.Checkout.Rows.{empty_checkout, CheckoutStore}
use razor_trust.Checkout.Calls.{
  CheckoutCall, after_checkout, call, start, ReachCheckout-OrdersAgree,
}
use razor_trust.Common.{
  [], ◌∷◌, false, ◌⊎◌, ◌≤◌, String, ◌≡◌, refl, true, none, some, arith, length,
}
use razor_trust.Common.Exec.{ok}

-- The methods of `str` on the texts below, which are plain.
abbrev plain : String → String
plain s = s

abbrev pending : PendingOrder
pending = record {
  account_id = "acc";
  amount = 1000;
  currency = "INR";
  device_fingerprint_sha256 = "device";
  customer_geo = "IN-DL";
  client_event_at = none;
}

abbrev provider_order : Fields
provider_order = field "id" (string "order_1") (
    field "status" (string "created") (
      field "amount" (integer 1000)
        (field "currency" (string "INR") (field "receipt" (string "rt-1") end))))

abbrev captured_event : PaymentEvent
captured_event = record {
  event_type = "payment.captured";
  source_event_id = "evt_1";
  payment_id = "pay_1";
  payment_status = "captured";
  captured = true;
  observed_at = 1200;
}

abbrev session_call : CheckoutCall
session_call = CheckoutCall.create_pending pending 1 "rt-1" 1000

abbrev order_call : CheckoutCall
order_call = CheckoutCall.finalize_provider_order 1 provider_order 5 1100

abbrev payment_call : CheckoutCall
payment_call = CheckoutCall.observe_payment_event (some "order_1") captured_event

abbrev opened_store : CheckoutStore
opened_store =
    after_checkout plain plain order_call (after_checkout plain plain session_call empty_checkout)

ReachCheckout-OrdersAgree_example :
    OrdersAgree (after_checkout plain plain payment_call opened_store)
ReachCheckout-OrdersAgree_example =
    ReachCheckout-OrdersAgree plain plain refl
      (call payment_call (call order_call (call session_call start)))

paid_session : checkout_stats (after_checkout plain plain payment_call opened_store) ≡ record {
  checkout_sessions = 1;
  verified_checkout_sessions = 0;
  checkout_payment_attempts = 1;
  checkout_open_sessions = 0;
  checkout_authorized_sessions = 0;
  checkout_attempted_sessions = 0;
  checkout_paid_sessions = 1;
  checkout_abandoned_sessions = 0;
}
unfolding checkout_stats after_checkout keep_if sessions_in observe_payment_event observe_order
    first_where finalize_provider_order get_or create_pending insert_order write_order replace_order
    with_attempt observed_order derive_checkout_lifecycle
paid_session = refl

-- Every order is as the provider made it, and every commit succeeds.
abbrev answering : Outside
answering = record {
  fetch_order = λ o. some provider_order;
  compare_raises = λ r. false;
  commit_raises = λ r. false;
}

reconcile_open_orders_counts_example :
    (c : CheckoutReconcileResult) × (s' : CheckoutStore) × (reconcile_open_orders plain answering 10
        24 2000 opened_store
      ≡ (ok c, s'))
    × CountsAgree c.inspected c
    × (c.inspected ≡ length (open_orders 10 opened_store))
    × (c.inspected ≤ 10)
reconcile_open_orders_counts_example =
    reconcile_open_orders_counts plain answering 10 24 2000 opened_store (omega arith) (omega arith)
      (omega arith) (omega arith)

-- A session that is paid, as its row, and a late failure of another payment of its order.
abbrev paid_row : CheckoutOrderRow
paid_row = record (pending_row pending 1 "rt-1" 1000) {
  razorpay_order_id = some "order_1";
  razorpay_payment_id = some "pay_1";
  provider_status = "paid";
  lifecycle_status = paid;
}

abbrev paid_store : CheckoutStore
paid_store = record { orders = paid_row ∷ []; attempts = []; telemetry = [] }

abbrev late_event : PaymentEvent
late_event = record captured_event {
  payment_id = "pay_2";
  payment_status = "failed";
  captured = false;
}

observe-paid_order_example :
    (observe_payment_event plain plain (some "order_1") late_event paid_store
      ≡ (err value_error, paid_store))
    ⊎ ((observe_payment_event plain plain (some "order_1") late_event paid_store).0 ≡ ok tt)
      × IsTakenOver 1 late_event
          (observe_payment_event plain plain (some "order_1") late_event paid_store).1
unfolding first_where
observe-paid_order_example =
    observe-paid_order plain plain refl "order_1" late_event paid_row paid_store refl refl refl refl
