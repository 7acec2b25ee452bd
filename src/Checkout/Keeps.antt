-- ===== src/Checkout/Keeps.antt =====
-- What the methods of `SqlCheckoutBridgeStore` (src/razortrust/checkout_bridge.py) keep of the sessions.
use razor_trust.Checkout.Rules.{text_or_empty}
use razor_trust.Processor.Json.{Fields}
use razor_trust.Checkout.Reconcile.{
  is_unpaid, Outside, reconcile_rows, reconcile_row, CheckoutReconcileResult, reconcile_order,
  reconcile_orders, reconcile_open_orders, attempted_status, paid_status, expiry_of, OrderStatus,
  reconciled_order,
}
use razor_trust.Checkout.Events.{
  with_attempt, observe_order, PaymentEvent, observe_payment_event, bind_verified_payment,
}
use razor_trust.Checkout.Store.{
  insert_order, write_order, find_by_order, failed_order, find_order, PendingOrder,
  mark_provider_failed, create_pending, finalize_provider_order,
}
use razor_trust.Checkout.Agreement.{
  failed_order-Agrees, pending_row-Agrees, opened_order-Agrees, observed_order-Agrees,
  verified_order-Agrees, replace_order-Agrees, PaidAgrees, OrdersAgree,
}
use razor_trust.Checkout.Rows.{CheckoutOrderRow, CheckoutStore, TelemetryRow}
use razor_trust.Common.{
  ◌&&◌, ℕ, String, ◌≡◌, refl, inl, inr, Bool, true, false, Option, none, some, List, [], ◌∷◌,
  str_eq, leb, Bool-cases, Option-cases, All-append,
}
use razor_trust.Common.Exec.{
  Exception, Result, ok, err, Exec, lift, gets, or_raise, raise_if, ◌>>=◌, ◌>>◌, Result-cases,
}

module _ (s : CheckoutStore) where
  -- An action that keeps the sessions in agreement, returning or raising.
  unfoldable pub Keeps : {A : Type 0} → Exec CheckoutStore A → Type 0
  Keeps m = OrdersAgree s → OrdersAgree (m s).1

  module _ {B : Type 0} where
    pub Keeps-lift :
        {A : Type 0} (r : Result A) (k : A → Exec CheckoutStore B)
        → ((a : A) → Keeps (k a))
        → Keeps (lift r >>= k)
    unfolding Keeps
    Keeps-lift (ok a) k f h = f a h
    Keeps-lift (err x) k f h = h

    pub Keeps-or_raise :
        {A : Type 0} (o : Option A) (x : Exception) (k : A → Exec CheckoutStore B)
        → ((a : A) → Keeps (k a))
        → Keeps (or_raise o x >>= k)
    unfolding Keeps
    Keeps-or_raise none x k f h = h
    Keeps-or_raise (some a) x k f h = f a h

    pub Keeps-raise_if :
        (b : Bool) (x : Exception) (k : Exec CheckoutStore B) → Keeps k → Keeps (raise_if b x >> k)
    unfolding Keeps
    Keeps-raise_if true x k f h = h
    Keeps-raise_if false x k f h = f h

    pub Keeps-gets :
        {A : Type 0} (f : CheckoutStore → A) (k : A → Exec CheckoutStore B)
        → Keeps (k (f s))
        → Keeps (gets f >>= k)
    unfolding Keeps
    Keeps-gets f k g h = g h

  pub Keeps-insert_order : (r : CheckoutOrderRow) → PaidAgrees r → Keeps (insert_order r)
  unfolding Keeps insert_order
  Keeps-insert_order r a h = All-append PaidAgrees s.orders (r ∷ []) h (a, tt)

  pub Keeps-write_order :
      (r : CheckoutOrderRow) (f : CheckoutStore → List TelemetryRow)
      → PaidAgrees r
      → Keeps (write_order r f)
  unfolding Keeps write_order
  Keeps-write_order r f a h = replace_order-Agrees r s.orders a h

  pub ruleset checkout_guards = (Keeps-lift, Keeps-or_raise, Keeps-raise_if, Keeps-gets)

  pub create_pending-Keeps :
      (x : PendingOrder) (fresh : ℕ) (receipt : String) (now : ℕ)
      → Keeps (create_pending x fresh receipt now)
  unfolding create_pending
  create_pending-Keeps x fresh receipt now =
      search (checkout_guards, Keeps-insert_order, pending_row-Agrees) depth 8

  pub finalize_provider_order-Keeps :
      (id : ℕ) (d : Fields) (telemetry_id now : ℕ)
      → Keeps (finalize_provider_order id d telemetry_id now)
  unfolding finalize_provider_order
  finalize_provider_order-Keeps id d telemetry_id now =
      search (checkout_guards, Keeps-write_order, opened_order-Agrees) depth 20

  pub mark_provider_failed-Keeps : (id now : ℕ) → Keeps (mark_provider_failed id now)
  unfolding mark_provider_failed Keeps
  mark_provider_failed-Keeps id now h = elim (Option-cases (find_order id s)) [
    | inl e ↦ rw e h
    | inr (r, e) ↦
        rw e (replace_order-Agrees (failed_order now r) s.orders (failed_order-Agrees now r) h)
  ]

  module _ (lower strip : String → String) (paid_is_plain : lower (strip "paid") ≡ "paid") where
    pub bind_verified_payment-Keeps :
        (id : ℕ) (payment_id status : String) (now : ℕ)
        → Keeps (bind_verified_payment lower strip id payment_id status now)
    unfolding bind_verified_payment
    bind_verified_payment-Keeps id payment_id status now =
        search (checkout_guards, Keeps-write_order, verified_order-Agrees lower strip paid_is_plain)
          depth 20

    observe_order-Keeps :
        (order_id : String) (e : PaymentEvent) (o : Option CheckoutOrderRow)
        → Keeps (observe_order lower strip order_id e o)
    unfolding observe_order Keeps
    observe_order-Keeps order_id e none h = h
    observe_order-Keeps order_id e (some r) h =
        elim (Result-cases (with_attempt order_id e r s.attempts)) [
          | inl (xs, q) ↦ rw q (
              replace_order-Agrees _ s.orders
                (observed_order-Agrees lower strip paid_is_plain e _ r) h)
          | inr (x, q) ↦ rw q h
        ]

    pub observe_payment_event-Keeps :
        (order_id : Option String) (e : PaymentEvent)
        → Keeps (observe_payment_event lower strip order_id e)
    unfolding observe_payment_event Keeps
    observe_payment_event-Keeps none e h = h
    observe_payment_event-Keeps (some order_id) e h = elim (Bool-cases (str_eq order_id "")) [
      | inl b ↦ rw b h
      | inr b ↦ rw b (observe_order-Keeps order_id e (find_by_order order_id s) h)
    ]

module _ (lower : String → String) (now hours : ℕ) where
  reconciled_order-Agrees :
      (status : OrderStatus) (n : ℕ) (r : CheckoutOrderRow)
      → PaidAgrees (reconciled_order lower now hours status n r)
  unfolding reconciled_order PaidAgrees
  reconciled_order-Agrees paid_status n r = refl
  reconciled_order-Agrees attempted_status n r = elim (Bool-cases (leb (expiry_of hours r) now)) [
    | inl e ↦ rw e refl
    | inr e ↦
        rw e (elim (Bool-cases (str_eq (lower (text_or_empty r.last_payment_status)) "failed")) [
          | inl f ↦ rw f refl
          | inr f ↦ rw f refl
        ])
  ]
  reconciled_order-Agrees OrderStatus.created n r =
      elim (Bool-cases (leb (expiry_of hours r) now)) [ inl e ↦ rw e refl | inr e ↦ rw e refl ]

  reconcile_row-Agrees :
      (o : Outside) (status : OrderStatus) (n : ℕ) (s : CheckoutStore) (c : CheckoutReconcileResult)
      (row : Option CheckoutOrderRow)
      → OrdersAgree s
      → OrdersAgree (reconcile_row lower now hours o status n s c row).1
  reconcile_row-Agrees o status n s c none h = h
  reconcile_row-Agrees o status n s c (some r) h =
      let row = reconciled_order lower now hours status n r in
      elim (Bool-cases (is_unpaid lower now hours status && o.compare_raises r)) [
        | inl raised ↦ rw raised h
        | inr compared ↦ rw compared (elim (Bool-cases (o.commit_raises row)) [
          | inl refused ↦ rw refused h
          | inr committed ↦
              rw committed
                (replace_order-Agrees row s.orders (reconciled_order-Agrees status n r) h)
        ])
      ]

  reconcile_order-Agrees :
      (o : Outside) (reply : Option (OrderStatus × ℕ)) (id : ℕ) (s : CheckoutStore)
      (c : CheckoutReconcileResult)
      → OrdersAgree s
      → OrdersAgree (reconcile_order lower now hours o reply id s c).1
  reconcile_order-Agrees o none id s c h = h
  reconcile_order-Agrees o (some (status, n)) id s c h =
      reconcile_row-Agrees o status n s c (find_order id s) h

  reconcile_orders-Agrees :
      (o : Outside) (rs : List CheckoutOrderRow) (s : CheckoutStore) (c : CheckoutReconcileResult)
      → OrdersAgree s
      → OrdersAgree (reconcile_orders lower now hours o rs s c).1
  unfolding reconcile_orders
  reconcile_orders-Agrees o [] s c h = h
  reconcile_orders-Agrees o (r ∷ rs) s c h =
      reconcile_orders-Agrees o rs _ _ (reconcile_order-Agrees o _ _ s c h)

reconcile_rows-Keeps :
    (lower : String → String) (o : Outside) (hours now : ℕ) (rows : List CheckoutOrderRow)
    (s : CheckoutStore)
    → Keeps s (reconcile_rows lower o hours now rows)
unfolding Keeps
reconcile_rows-Keeps lower o hours now rows s = reconcile_orders-Agrees lower now hours o rows s _

pub reconcile_open_orders-Keeps :
    (lower : String → String) (o : Outside) (limit hours now : ℕ) (s : CheckoutStore)
    → Keeps s (reconcile_open_orders lower o limit hours now)
unfolding reconcile_open_orders
reconcile_open_orders-Keeps lower o limit hours now s =
    search (checkout_guards, reconcile_rows-Keeps)
