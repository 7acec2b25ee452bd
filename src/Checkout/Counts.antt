-- ===== src/Checkout/Counts.antt =====
-- The counters of `reconcile_open_orders` (src/razortrust/checkout_bridge.py).
use razor_trust.Common.{inr, inl, ◌&&◌, Bool-cases, length-take-le, refl, ◌∙◌}
use mathlib.Core.List.{[]}
use mathlib.Core.Option.{none}
use razor_trust.Checkout.Store.{find_order}
use razor_trust.Common.Exec.{ok}
use razor_trust.Checkout.Rows.{CheckoutStore, CheckoutOrderRow}
use razor_trust.Checkout.Reconcile.{
  reconciled_order, is_unpaid, Outside, count_error, count_abandoned, count_updated, no_result,
  open_orders, reconcile_order, reconcile_row, reconcile_orders, reconcile_open_orders,
  attempted_status, paid_status, count_order, CheckoutReconcileResult, OrderStatus,
}
use razor_trust.Common.{
  ltb, false, ◌==◌, ◌∙◌, length, ◌∷◌, some, List, Option, ℕ, suc, ◌+◌, ◌≤◌, String, ◌≡◌, arith,
}

-- Every updated session is counted by the status of its order, a session that is counted but not updated
-- is an error, none is abandoned but those not paid, and none is updated or an error but those seen.
pub record CountsAgree (seen : ℕ) (c : CheckoutReconcileResult) : Type 0 where
  pub counted : c.updated ≤ c.now_paid + c.now_attempted + c.now_open
  pub uncommitted : c.now_paid + c.now_attempted + c.now_open ≤ c.updated + c.errors
  pub unpaid : c.now_abandoned ≤ c.now_attempted + c.now_open
  pub in_all : c.updated + c.errors ≤ seen

module _ (lower : String → String) (now hours : ℕ) where
  -- An iteration that passes, ends with an error before or after a status is counted, or updates.
  later : (n : ℕ) (c : CheckoutReconcileResult) → CountsAgree n c → CountsAgree (suc n) c
  later n c h = record {
    counted = h.counted;
    uncommitted = h.uncommitted;
    unpaid = h.unpaid;
    in_all = ground arith;
  }

  failed-Agree :
      (n : ℕ) (c : CheckoutReconcileResult) → CountsAgree n c → CountsAgree (suc n) (count_error c)
  failed-Agree n c h = record {
    counted = h.counted;
    uncommitted = ground arith;
    unpaid = h.unpaid;
    in_all = ground arith;
  }

  uncompared-Agree :
      (n : ℕ) (status : OrderStatus) (c : CheckoutReconcileResult)
      → CountsAgree n c
      → CountsAgree (suc n) (count_error (count_order lower now hours status c))
  uncompared-Agree n paid_status c h = record {
    counted = ground arith;
    uncommitted = ground arith;
    unpaid = ground arith;
    in_all = ground arith;
  }
  uncompared-Agree n attempted_status c h = record {
    counted = ground arith;
    uncommitted = ground arith;
    unpaid = ground arith;
    in_all = ground arith;
  }
  uncompared-Agree n OrderStatus.created c h = record {
    counted = ground arith;
    uncommitted = ground arith;
    unpaid = ground arith;
    in_all = ground arith;
  }

  refused-Agree :
      (n : ℕ) (status : OrderStatus) (r : CheckoutOrderRow) (c : CheckoutReconcileResult)
      → CountsAgree n c
      → CountsAgree (suc n) (
          count_error
            (count_abandoned lower now hours status r (count_order lower now hours status c)))
  refused-Agree n paid_status r c h = record {
    counted = ground arith;
    uncommitted = ground arith;
    unpaid = ground arith;
    in_all = ground arith;
  }
  refused-Agree n attempted_status r c h = record {
    counted = ground arith;
    uncommitted = ground arith;
    unpaid = ground arith;
    in_all = ground arith;
  }
  refused-Agree n OrderStatus.created r c h = record {
    counted = ground arith;
    uncommitted = ground arith;
    unpaid = ground arith;
    in_all = ground arith;
  }

  committed-Agree :
      (n : ℕ) (status : OrderStatus) (r : CheckoutOrderRow) (c : CheckoutReconcileResult)
      → CountsAgree n c
      → CountsAgree (suc n) (
          count_updated lower now hours
            (count_abandoned lower now hours status r (count_order lower now hours status c)))
  committed-Agree n paid_status r c h = record {
    counted = ground arith;
    uncommitted = ground arith;
    unpaid = ground arith;
    in_all = ground arith;
  }
  committed-Agree n attempted_status r c h = record {
    counted = ground arith;
    uncommitted = ground arith;
    unpaid = ground arith;
    in_all = ground arith;
  }
  committed-Agree n OrderStatus.created r c h = record {
    counted = ground arith;
    uncommitted = ground arith;
    unpaid = ground arith;
    in_all = ground arith;
  }

  reconcile_row-Counts :
      (o : Outside) (n k : ℕ) (status : OrderStatus) (s : CheckoutStore)
      (c : CheckoutReconcileResult) (row : Option CheckoutOrderRow)
      → CountsAgree n c
      → CountsAgree (suc n) (reconcile_row lower now hours o status k s c row).0
  reconcile_row-Counts o n k status s c none h = later n c h
  reconcile_row-Counts o n k status s c (some r) h =
      elim (Bool-cases (is_unpaid lower now hours status && o.compare_raises r)) [
        | inl raised ↦ rw raised (uncompared-Agree n status c h)
        | inr compared ↦
            rw compared
              (elim (Bool-cases (o.commit_raises (reconciled_order lower now hours status k r))) [
                | inl refused ↦ rw refused (refused-Agree n status r c h)
                | inr committed ↦ rw committed (committed-Agree n status r c h)
              ])
      ]

  count_order-inspected :
      (status : OrderStatus) (c : CheckoutReconcileResult)
      → (count_order lower now hours status c).inspected ≡ c.inspected
  count_order-inspected paid_status c = refl
  count_order-inspected attempted_status c = refl
  count_order-inspected OrderStatus.created c = refl

  reconcile_row-inspected :
      (o : Outside) (k : ℕ) (status : OrderStatus) (s : CheckoutStore) (c : CheckoutReconcileResult)
      (row : Option CheckoutOrderRow)
      → (reconcile_row lower now hours o status k s c row).0.inspected ≡ c.inspected
  reconcile_row-inspected o k status s c none = refl
  reconcile_row-inspected o k status s c (some r) =
      elim (Bool-cases (is_unpaid lower now hours status && o.compare_raises r)) [
        | inl raised ↦ rw raised (count_order-inspected status c)
        | inr compared ↦
            rw compared
              (elim (Bool-cases (o.commit_raises (reconciled_order lower now hours status k r))) [
                | inl refused ↦ rw refused (count_order-inspected status c)
                | inr committed ↦ rw committed (count_order-inspected status c)
              ])
      ]

  reconcile_order-Counts :
      (o : Outside) (n : ℕ) (reply : Option (OrderStatus × ℕ)) (id : ℕ) (s : CheckoutStore)
      (c : CheckoutReconcileResult)
      → CountsAgree n c
      → CountsAgree (suc n) (reconcile_order lower now hours o reply id s c).0
  reconcile_order-Counts o n none id s c h = failed-Agree n c h
  reconcile_order-Counts o n (some (status, k)) id s c h =
      reconcile_row-Counts o n k status s c (find_order id s) h

  reconcile_order-inspected :
      (o : Outside) (reply : Option (OrderStatus × ℕ)) (id : ℕ) (s : CheckoutStore)
      (c : CheckoutReconcileResult)
      → (reconcile_order lower now hours o reply id s c).0.inspected ≡ c.inspected
  reconcile_order-inspected o none id s c = refl
  reconcile_order-inspected o (some (status, k)) id s c =
      reconcile_row-inspected o k status s c (find_order id s)

  reconcile_orders-Counts :
      (o : Outside) (rs : List CheckoutOrderRow) (n : ℕ) (s : CheckoutStore)
      (c : CheckoutReconcileResult)
      → CountsAgree n c
      → CountsAgree (n + length rs) (reconcile_orders lower now hours o rs s c).0
  unfolding reconcile_orders
  reconcile_orders-Counts o [] n s c h = record {
    counted = h.counted;
    uncommitted = h.uncommitted;
    unpaid = h.unpaid;
    in_all = ground arith;
  }
  reconcile_orders-Counts o (r ∷ rs) n s c h =
      let h' = reconcile_orders-Counts o rs (suc n) _ _ (reconcile_order-Counts o n _ _ s c h) in
      record {
        counted = h'.counted;
        uncommitted = h'.uncommitted;
        unpaid = h'.unpaid;
        in_all = ground arith;
      }

  reconcile_orders-inspected :
      (o : Outside) (rs : List CheckoutOrderRow) (s : CheckoutStore) (c : CheckoutReconcileResult)
      → (reconcile_orders lower now hours o rs s c).0.inspected ≡ c.inspected
  unfolding reconcile_orders
  reconcile_orders-inspected o [] s c = refl
  reconcile_orders-inspected o (r ∷ rs) s c =
      reconcile_orders-inspected o rs _ _ ∙ reconcile_order-inspected o _ _ s c

length-open_orders : (limit : ℕ) (s : CheckoutStore) → length (open_orders limit s) ≤ limit
unfolding open_orders
length-open_orders limit s = length-take-le limit _

-- With a limit from 1 to 1000 and hours from 1 to 720, `reconcile_open_orders` returns, whatever
-- the provider answers and whatever a request, a comparison of times or a commit raises: it
-- inspects the open orders up to the limit, its updated sessions are at most those counted paid,
-- attempted or open, which are at most the updated ones and the errors together, its abandoned
-- ones are at most those attempted or open, and its updated ones and errors are at most the
-- inspected ones.
pub reconcile_open_orders_counts :
    (lower : String → String) (o : Outside) (limit hours now : ℕ) (s : CheckoutStore)
    → 1 ≤ limit
    → limit ≤ 1000
    → 1 ≤ hours
    → hours ≤ 720
    → (c : CheckoutReconcileResult) × (s' : CheckoutStore) × (reconcile_open_orders lower o limit
          hours now s
        ≡ (ok c, s'))
      × CountsAgree c.inspected c
      × (c.inspected ≡ length (open_orders limit s))
      × (c.inspected ≤ limit)
unfolding reconcile_open_orders
reconcile_open_orders_counts lower o limit hours now s l1 l2 h1 h2 =
    let e1 : (limit == 0) ≡ false = ground arith in
    let e2 : ltb 1000 limit ≡ false = ground arith in
    let e3 : (hours == 0) ≡ false = ground arith in
    let e4 : ltb 720 hours ≡ false = ground arith in
    rw (e1, e2, e3, e4)
      let rows = open_orders limit s in
        let c = no_result (length rows) in
        let same = reconcile_orders-inspected lower now hours o rows s c in
        let counts = reconcile_orders-Counts lower now hours o rows 0 s c (record {
          counted = omega arith;
          uncommitted = omega arith;
          unpaid = omega arith;
          in_all = omega arith;
        }) in
        (
          _,
          _,
          refl,
          rw same (record {
            counted = counts.counted;
            uncommitted = counts.uncommitted;
            unpaid = counts.unpaid;
            in_all = omega (arith, counts.in_all);
          }),
          same,
          rw same (length-open_orders limit s),
        )
