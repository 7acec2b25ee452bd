-- ===== src/Checkout/Calls.antt =====
-- Sequences of calls of `SqlCheckoutBridgeStore` (src/razortrust/checkout_bridge.py).
use razor_trust.Checkout.Reconcile.{Outside}
use razor_trust.Checkout.Events.{PaymentEvent}
use razor_trust.Processor.Json.{Fields}
use razor_trust.Checkout.Agreement.{OrdersAgree}
use razor_trust.Checkout.Rows.{empty_checkout, CheckoutStore}
use razor_trust.Checkout.Keeps.{
  reconcile_open_orders-Keeps, observe_payment_event-Keeps, bind_verified_payment-Keeps,
  finalize_provider_order-Keeps, mark_provider_failed-Keeps, create_pending-Keeps, Keeps,
}
use razor_trust.Checkout.Store.{PendingOrder}
use razor_trust.Checkout.Store
use razor_trust.Checkout.Events
use razor_trust.Checkout.Reconcile
use razor_trust.Common.{ℕ, String, ◌≡◌, Option}

pub data CheckoutCall : Type 0 where
  create_pending : PendingOrder → (fresh : ℕ) (receipt : String) (now : ℕ) → CheckoutCall
  mark_provider_failed : (id now : ℕ) → CheckoutCall
  finalize_provider_order : (id : ℕ) → Fields → (telemetry_id now : ℕ) → CheckoutCall
  bind_verified_payment : (id : ℕ) (payment_id status : String) (now : ℕ) → CheckoutCall
  observe_payment_event : Option String → PaymentEvent → CheckoutCall
  reconcile_open_orders : (o : Outside) (limit hours now : ℕ) → CheckoutCall

module _ (lower strip : String → String) where
  -- The tables after a call, whether it returns or raises.
  unfoldable pub after_checkout : CheckoutCall → CheckoutStore → CheckoutStore
  after_checkout (CheckoutCall.create_pending x fresh receipt now) s =
      (Store.create_pending x fresh receipt now s).1
  after_checkout (CheckoutCall.mark_provider_failed id now) s =
      (Store.mark_provider_failed id now s).1
  after_checkout (CheckoutCall.finalize_provider_order id d telemetry_id now) s =
      (Store.finalize_provider_order id d telemetry_id now s).1
  after_checkout (CheckoutCall.bind_verified_payment id payment_id status now) s =
      (Events.bind_verified_payment lower strip id payment_id status now s).1
  after_checkout (CheckoutCall.observe_payment_event order_id e) s =
      (Events.observe_payment_event lower strip order_id e s).1
  after_checkout (CheckoutCall.reconcile_open_orders o limit hours now) s =
      (Reconcile.reconcile_open_orders lower o limit hours now s).1

  -- The tables that calls lead to.
  pub data ReachCheckout : CheckoutStore → Type 0 where
    start : ReachCheckout empty_checkout
    call :
        {s : CheckoutStore} (c : CheckoutCall)
        → ReachCheckout s
        → ReachCheckout (after_checkout c s)

  after-Agrees :
      (paid_is_plain : lower (strip "paid") ≡ "paid") (c : CheckoutCall) (s : CheckoutStore)
      → OrdersAgree s
      → OrdersAgree (after_checkout c s)
  unfolding after_checkout Keeps
  after-Agrees p (CheckoutCall.create_pending x fresh receipt now) s =
      create_pending-Keeps s x fresh receipt now
  after-Agrees p (CheckoutCall.mark_provider_failed id now) s = mark_provider_failed-Keeps s id now
  after-Agrees p (CheckoutCall.finalize_provider_order id d telemetry_id now) s =
      finalize_provider_order-Keeps s id d telemetry_id now
  after-Agrees p (CheckoutCall.bind_verified_payment id payment_id status now) s =
      bind_verified_payment-Keeps s lower strip p id payment_id status now
  after-Agrees p (CheckoutCall.observe_payment_event order_id e) s =
      observe_payment_event-Keeps s lower strip p order_id e
  after-Agrees p (CheckoutCall.reconcile_open_orders o limit hours now) s =
      reconcile_open_orders-Keeps lower o limit hours now s

  -- In every store that calls of `SqlCheckoutBridgeStore` lead to, returning or raising, a
  -- session is PAID exactly where the provider status of its order is paid, if the text paid is
  -- its own stripped lower case.
  pub ReachCheckout-OrdersAgree :
      {s : CheckoutStore} (paid_is_plain : lower (strip "paid") ≡ "paid")
      → ReachCheckout s
      → OrdersAgree s
  ReachCheckout-OrdersAgree p start = tt
  ReachCheckout-OrdersAgree p (call {s} c r) = after-Agrees p c s (ReachCheckout-OrdersAgree p r)
