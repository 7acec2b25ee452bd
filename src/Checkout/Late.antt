-- ===== src/Checkout/Late.antt =====
-- Events of an order that is already paid (src/razortrust/checkout_bridge.py).
use razor_trust.Checkout.Rows.{CheckoutPaymentAttemptRow}
use razor_trust.Common.{
  ℕ, String, ◌≡◌, refl, ◌⊎◌, inl, inr, Bool, false, some, List, [], ◌∷◌, arith, str_eq, ◌==◌,
  ==_refl, Bool-cases, Option-cases,
}
use razor_trust.Common.Exec.{ok, err, value_error}
use razor_trust.Common.Exec.{ok, value_error, err}
use razor_trust.Checkout.Store.{find_by_order, find_order, replace_order}
use razor_trust.Checkout.Events.{
  is_bound_elsewhere, find_attempt, with_attempt, observe_payment_event, observe_order, seen_order,
  PaymentEvent, observed_order,
}
use razor_trust.Checkout.Agreement.{lifecycle_after-paid}
use razor_trust.Checkout.Rows.{CheckoutOrderRow, CheckoutStore, paid}
use razor_trust.Database.Queries.{first_where}
use razor_trust.Common.{
  ◌⊎◌, false, str_eq, ℕ, String, ◌≡◌, refl, inl, inr, Bool, some, List, [], ◌∷◌, arith, ◌==◌,
  ==_refl, Bool-cases,
}

abbrev pub has_key : ℕ → CheckoutOrderRow → Bool
has_key id x = x.checkout_session_id == id

-- A row is read back by its key.
find-replace_order :
    (r q : CheckoutOrderRow) (xs : List CheckoutOrderRow)
    → first_where (has_key r.checkout_session_id) xs ≡ some q
    → first_where (has_key r.checkout_session_id) (replace_order r xs) ≡ some r
unfolding first_where replace_order
find-replace_order r q [] h = ground arith
find-replace_order r q (x ∷ xs) h =
    elim (Bool-cases (x.checkout_session_id == r.checkout_session_id)) [
      | inl e ↦ rw e (rw (==_refl r.checkout_session_id) refl)
      | inr e ↦ rw e (rw e (find-replace_order r q xs (rw e at h)))
    ]

with_attempt-cases :
    (order_id : String) (e : PaymentEvent) (r : CheckoutOrderRow)
    (xs : List CheckoutPaymentAttemptRow)
    → ((ys : List CheckoutPaymentAttemptRow) × (with_attempt order_id e r xs ≡ ok ys))
      ⊎ (with_attempt order_id e r xs ≡ err value_error)
unfolding with_attempt
with_attempt-cases order_id e r xs = elim (Option-cases (find_attempt e.payment_id xs)) [
  | inl none_yet ↦ rw (none_yet, with_attempt) (inl (_, refl))
  | inr (a, known) ↦
      rw (known, with_attempt)
        (elim (Bool-cases (is_bound_elsewhere order_id r a)) [
          | inl other ↦ rw (other, with_attempt) (inr refl)
          | inr same ↦ rw (same, with_attempt) (inl (_, refl))
        ])
]

-- The session after an event is `PAID` with the payment of the event.
pub record IsTakenOver (id : ℕ) (e : PaymentEvent) (s : CheckoutStore) : Type 0 where
  pub row : CheckoutOrderRow
  pub stored : find_order id s ≡ some row
  pub is_paid : row.lifecycle_status ≡ paid
  pub payment : row.razorpay_payment_id ≡ some e.payment_id
  pub confirmed : row.webhook_confirmed_at ≡ some e.observed_at

module _ (lower strip : String → String) (paid_is_plain : lower (strip "paid") ≡ "paid") where
  observed_order-paid :
      (e : PaymentEvent) (n : ℕ) (r : CheckoutOrderRow)
      → r.provider_status ≡ "paid"
      → observed_order lower strip e n r ≡ record (seen_order lower strip e n r) {
        provider_status = "paid";
        razorpay_payment_id = some e.payment_id;
        webhook_confirmed_at = some e.observed_at;
      }
  unfolding observed_order
  observed_order-paid e n r h =
      rw (lifecycle_after-paid lower strip paid_is_plain e.payment_status r h) refl

  observe_order-paid :
      (order_id : String) (e : PaymentEvent) (r : CheckoutOrderRow) (s : CheckoutStore)
      → find_order r.checkout_session_id s ≡ some r
      → r.provider_status ≡ "paid"
      → (observe_order lower strip order_id e (some r) s ≡ (err value_error, s))
        ⊎ ((observe_order lower strip order_id e (some r) s).0 ≡ ok tt)
          × IsTakenOver r.checkout_session_id e (observe_order lower strip order_id e (some r) s).1
  unfolding observe_order
  observe_order-paid order_id e r s key h = elim (with_attempt-cases order_id e r s.attempts) [
    | inl (xs, q) ↦
        rw (q, observed_order-paid e _ r h)
          (inr (
            refl,
            record {
              row = _;
              stored = find-replace_order _ r s.orders key;
              is_paid = lifecycle_after-paid lower strip paid_is_plain e.payment_status r h;
              payment = refl;
              confirmed = refl;
            },
          ))
    | inr q ↦ rw q (inl refl)
  ]

  -- On the session of a named order that the provider has as paid, and that its key finds, a
  -- webhook event, whatever its status, is refused with a ValueError that leaves the store, or
  -- leaves the session PAID with the payment and the time of the event in place of the earlier
  -- ones, if the text paid is its own stripped lower case.
  pub observe-paid_order :
      (order_id : String) (e : PaymentEvent) (r : CheckoutOrderRow) (s : CheckoutStore)
      → str_eq order_id "" ≡ false
      → find_by_order order_id s ≡ some r
      → find_order r.checkout_session_id s ≡ some r
      → r.provider_status ≡ "paid"
      → (observe_payment_event lower strip (some order_id) e s ≡ (err value_error, s))
        ⊎ ((observe_payment_event lower strip (some order_id) e s).0 ≡ ok tt)
          × IsTakenOver r.checkout_session_id e
              (observe_payment_event lower strip (some order_id) e s).1
  unfolding observe_payment_event
  observe-paid_order order_id e r s named found key h =
      rw (named, found) (observe_order-paid order_id e r s key h)
