-- ===== src/Checkout/Reconcile.antt =====
-- `reconcile_open_orders` of `SqlCheckoutBridgeStore` (src/razortrust/checkout_bridge.py).
use razor_trust.Checkout.Rows.{
  CheckoutOrderRow, CheckoutStore, Lifecycle, open_order, attempted, attempt_failed, paid,
  abandoned, provider_order_failed,
}
use razor_trust.Checkout.Rules.{lifecycle_eq, text_or_empty}
use razor_trust.Checkout.Store.{find_order, updated_order, attempts_of}
use razor_trust.Processor.Json.{Fields, Json, string, get}
use razor_trust.Timeline.Latest.{keep_if, sort_by}
use razor_trust.Features.{hour}
use razor_trust.Common.{
  true, ℕ, ◌+◌, ◌*◌, String, Bool, false, not, ◌&&◌, ◌||◌, Option, none, some, List, [], ◌∷◌,
  str_eq, ltb, leb, ◌==◌, if◌then◌else◌, is_some, length, take,
}
use razor_trust.Common.Exec.{ok, Exec, gets, raise_if, ◌>>=◌, ◌>>◌, value_error}

pub record CheckoutReconcileResult : Type 0 where
  pub inspected : ℕ
  pub updated : ℕ
  pub now_paid : ℕ
  pub now_attempted : ℕ
  pub now_open : ℕ
  pub now_abandoned : ℕ
  pub errors : ℕ

-- The status of a provider's order
pub data OrderStatus : Type 0 where
  created attempted_status paid_status : OrderStatus

abbrev pub order_status_of : Json → Option OrderStatus
order_status_of (string s) =
    if str_eq s "created"
    then some OrderStatus.created
    else if str_eq s "attempted"
    then some attempted_status
    else if str_eq s "paid"
    then some paid_status
    else none
order_status_of _ = none

abbrev pub status_text : OrderStatus → String
status_text OrderStatus.created = "created"
status_text attempted_status = "attempted"
status_text paid_status = "paid"

-- `row.expires_at or (row.created_at + timedelta(hours=abandon_after_hours))`
abbrev pub expiry_of : ℕ → CheckoutOrderRow → ℕ
expiry_of hours r = elim r.expires_at [ none ↦ r.created_at + hours * hour | some t ↦ t ]

abbrev pub or_now : Option ℕ → (now : ℕ) → Option ℕ
or_now none now = some now
or_now (some t) now = some t

-- Whether the session has an order, is neither abandoned nor refused by the provider, and is not paid
-- or has no attempts yet.
abbrev pub needs_reconciliation : CheckoutOrderRow → Bool
needs_reconciliation r =
    is_some r.razorpay_order_id
    && not (lifecycle_eq r.lifecycle_status abandoned)
    && not (lifecycle_eq r.lifecycle_status provider_order_failed)
    && (not (lifecycle_eq r.lifecycle_status paid) || r.provider_attempts == 0)

unfoldable pub open_orders : (limit : ℕ) → CheckoutStore → List CheckoutOrderRow
open_orders limit s =
    take limit
      (sort_by (λ r q. leb r.created_at q.created_at) (keep_if needs_reconciliation s.orders))

abbrev pub no_result : ℕ → CheckoutReconcileResult
no_result inspected = record {
  inspected = inspected;
  updated = 0;
  now_paid = 0;
  now_attempted = 0;
  now_open = 0;
  now_abandoned = 0;
  errors = 0;
}

abbrev pub one_if : Bool → ℕ
one_if b = if b then 1 else 0

abbrev pub count_error : CheckoutReconcileResult → CheckoutReconcileResult
count_error c = record c { errors = c.errors + 1 }

-- The provider and the database: a reply to a request by the order, where `none` is an exception of the
-- request or of the read that follows, whether a row's time of expiry cannot be compared with the clock,
-- as a time without a zone cannot, and whether the commit of a row raises, as it does for a number that a
-- column cannot hold.
pub record Outside : Type 0 where
  pub fetch_order : String → Option Fields
  pub compare_raises : CheckoutOrderRow → Bool
  pub commit_raises : CheckoutOrderRow → Bool

-- A reply and its status, or an exception.
abbrev pub checked_reply : Option Fields → Option (OrderStatus × ℕ)
checked_reply none = none
checked_reply (some d) = elim (order_status_of (get "status" d)) [
  | none ↦ none
  | some status ↦ some (status, attempts_of (get "attempts" d))
]

module _ (lower : String → String) (now hours : ℕ) where
  -- The lifecycle for the status of the provider's order
  abbrev pub reconciled_lifecycle : OrderStatus → CheckoutOrderRow → Lifecycle
  reconciled_lifecycle OrderStatus.created r = open_order
  reconciled_lifecycle paid_status r = paid
  reconciled_lifecycle attempted_status r =
      if str_eq (lower (text_or_empty r.last_payment_status)) "failed"
      then attempt_failed
      else attempted

  -- `order_status != "paid" and now >= expiry`
  abbrev pub expires : OrderStatus → CheckoutOrderRow → Bool
  expires paid_status r = false
  expires _ r = leb (expiry_of hours r) now

  unfoldable pub reconciled_order : OrderStatus → ℕ → CheckoutOrderRow → CheckoutOrderRow
  reconciled_order status n r =
      let row = record r {
        provider_status = status_text status;
        provider_attempts = n;
        last_provider_reconciled_at = some now;
        lifecycle_status = reconciled_lifecycle status r;
        expires_at = some (expiry_of hours r);
        updated_at = now;
      } in
      if expires status r
      then record row { lifecycle_status = abandoned; abandoned_at = or_now r.abandoned_at now }
      else row

  -- `order_status != "paid"`, where the times are compared
  abbrev pub is_unpaid : OrderStatus → Bool
  is_unpaid paid_status = false
  is_unpaid _ = true

  -- The counters of a status, which go up before the times are compared, that of the abandoned, which
  -- goes up before the commit, and that of the updated, which goes up after it.
  abbrev pub count_order : OrderStatus → CheckoutReconcileResult → CheckoutReconcileResult
  count_order paid_status c = record c { now_paid = c.now_paid + 1 }
  count_order attempted_status c = record c { now_attempted = c.now_attempted + 1 }
  count_order OrderStatus.created c = record c { now_open = c.now_open + 1 }

  abbrev pub count_abandoned :
      OrderStatus → CheckoutOrderRow → CheckoutReconcileResult → CheckoutReconcileResult
  count_abandoned status r c = record c {
    now_abandoned = c.now_abandoned + one_if (expires status r);
  }

  abbrev pub count_updated : CheckoutReconcileResult → CheckoutReconcileResult
  count_updated c = record c { updated = c.updated + 1 }

  -- The commit of a row: where it raises, the counters stay as they are and the store is as before.
  abbrev pub commit_row :
      Outside
      → CheckoutOrderRow
      → CheckoutStore
      → CheckoutReconcileResult
      → CheckoutReconcileResult × CheckoutStore
  commit_row o row s c =
      if o.commit_raises row then (count_error c, s) else (count_updated c, updated_order row s)

  -- The row that is read again, where it is still there.
  abbrev pub reconcile_row :
      Outside
      → OrderStatus
      → ℕ
      → CheckoutStore
      → CheckoutReconcileResult
      → Option CheckoutOrderRow
      → CheckoutReconcileResult × CheckoutStore
  reconcile_row o status n s c none = (c, s)
  reconcile_row o status n s c (some r) =
      let counted = count_order status c in
      if is_unpaid status && o.compare_raises r
      then (count_error counted, s)
      else commit_row o (reconciled_order status n r) s (count_abandoned status r counted)

  abbrev pub reconcile_order :
      Outside
      → Option (OrderStatus × ℕ)
      → ℕ
      → CheckoutStore
      → CheckoutReconcileResult
      → CheckoutReconcileResult × CheckoutStore
  reconcile_order o none id s c = (count_error c, s)
  reconcile_order o (some (status, n)) id s c = reconcile_row o status n s c (find_order id s)

  unfoldable pub reconcile_orders :
      Outside
      → List CheckoutOrderRow
      → CheckoutStore
      → CheckoutReconcileResult
      → CheckoutReconcileResult × CheckoutStore
  reconcile_orders o [] s c = (c, s)
  reconcile_orders o (r ∷ rs) s c =
      let reply = o.fetch_order (text_or_empty r.razorpay_order_id) in
      let (c', s') = reconcile_order o (checked_reply reply) r.checkout_session_id s c in
      reconcile_orders o rs s' c'

-- The loop over the rows, which raises nothing.
abbrev pub reconcile_rows :
    (lower : String → String) (o : Outside) (abandon_after_hours now : ℕ)
    (rows : List CheckoutOrderRow)
    → Exec CheckoutStore CheckoutReconcileResult
reconcile_rows lower o abandon_after_hours now rows s =
    let (c, s') =
      reconcile_orders lower now abandon_after_hours o rows s (no_result (length rows)) in
    (ok c, s')

unfoldable pub reconcile_open_orders :
    (lower : String → String) (o : Outside) (limit abandon_after_hours now : ℕ)
    → Exec CheckoutStore CheckoutReconcileResult
reconcile_open_orders lower o limit abandon_after_hours now = do
  raise_if (limit == 0 || ltb 1000 limit) value_error
  raise_if (abandon_after_hours == 0 || ltb 720 abandon_after_hours) value_error
  rows ← gets (open_orders limit)
  reconcile_rows lower o abandon_after_hours now rows
