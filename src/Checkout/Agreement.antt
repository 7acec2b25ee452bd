-- ===== src/Checkout/Agreement.antt =====
-- The status of a checkout session beside the status of the provider's order
-- (src/razortrust/checkout_bridge.py).
use razor_trust.Checkout.Events.{PaymentEvent, lifecycle_after, observed_order, verified_order}
use razor_trust.Checkout.Store.{
  failed_order, pending_row, PendingOrder, opened_order, replace_order,
}
use razor_trust.Checkout.Rows.{CheckoutOrderRow, CheckoutStore, paid}
use razor_trust.Checkout.Rules.{lifecycle_eq, derive_checkout_lifecycle}
use razor_trust.Common.{
  ℕ, String, ◌≡◌, refl, sym, ◌∙◌, inl, inr, false, Option, some, List, [], ◌∷◌, arith, str_eq,
  eq_iff, ◌==◌, Bool-cases, All,
}

-- The session is `PAID` exactly where the provider's order is "paid".
unfoldable pub PaidAgrees : CheckoutOrderRow → Type 0
PaidAgrees r = lifecycle_eq r.lifecycle_status paid ≡ str_eq r.provider_status "paid"

abbrev pub OrdersAgree : CheckoutStore → Type 0
OrdersAgree s = All PaidAgrees s.orders

pub replace_order-Agrees :
    (r : CheckoutOrderRow) (xs : List CheckoutOrderRow)
    → PaidAgrees r
    → All PaidAgrees xs
    → All PaidAgrees (replace_order r xs)
unfolding replace_order
replace_order-Agrees r [] a h = tt
replace_order-Agrees r (x ∷ xs) a h =
    elim (Bool-cases (x.checkout_session_id == r.checkout_session_id)) [
      | inl e ↦ rw e (a, replace_order-Agrees r xs a h.1)
      | inr e ↦ rw e (h.0, replace_order-Agrees r xs a h.1)
    ]

pub pending_row-Agrees :
    (x : PendingOrder) (fresh : ℕ) (receipt : String) (now : ℕ)
    → PaidAgrees (pending_row x fresh receipt now)
unfolding PaidAgrees
pending_row-Agrees x fresh receipt now = refl

pub opened_order-Agrees :
    (order_id : String) (attempts telemetry_id now : ℕ) (r : CheckoutOrderRow)
    → PaidAgrees (opened_order order_id attempts telemetry_id now r)
unfolding PaidAgrees
opened_order-Agrees order_id attempts telemetry_id now r = refl

pub failed_order-Agrees : (now : ℕ) (r : CheckoutOrderRow) → PaidAgrees (failed_order now r)
unfolding PaidAgrees
failed_order-Agrees now r = refl

module _ (lower strip : String → String) (paid_is_plain : lower (strip "paid") ≡ "paid") where
  paid-lifecycle :
      (status : Option String) → derive_checkout_lifecycle lower strip status (some "paid") ≡ paid
  unfolding derive_checkout_lifecycle
  paid-lifecycle status = rw paid_is_plain refl

  pub lifecycle_after-paid :
      (status : String) (r : CheckoutOrderRow)
      → r.provider_status ≡ "paid"
      → lifecycle_after lower strip status r ≡ paid
  lifecycle_after-paid status r e = rw e (paid-lifecycle (some status))

  unpaid-provider :
      (status : String) (r : CheckoutOrderRow)
      → lifecycle_eq (lifecycle_after lower strip status r) paid ≡ false
      → str_eq r.provider_status "paid" ≡ false
  unpaid-provider status r e = elim (Bool-cases (str_eq r.provider_status "paid")) [
    | inl b ↦
        let same = (eq_iff r.provider_status "paid").0 b in
        ground (arith, lifecycle_after-paid status r same)
    | inr b ↦ b
  ]

  pub verified_order-Agrees :
      (payment_id status : String) (now : ℕ) (r : CheckoutOrderRow)
      → PaidAgrees (verified_order lower strip payment_id status now r)
  unfolding PaidAgrees
  verified_order-Agrees payment_id status now r =
      elim (Bool-cases (lifecycle_eq (lifecycle_after lower strip status r) paid)) [
        | inl e ↦ rw e refl
        | inr e ↦ rw e (sym (unpaid-provider status r e))
      ]

  pub observed_order-Agrees :
      (e : PaymentEvent) (n : ℕ) (r : CheckoutOrderRow)
      → PaidAgrees (observed_order lower strip e n r)
  unfolding observed_order PaidAgrees
  observed_order-Agrees e n r =
      elim (Bool-cases (lifecycle_eq (lifecycle_after lower strip e.payment_status r) paid)) [
        | inl b ↦ rw b b
        | inr b ↦
            rw b
              let unpaid = unpaid-provider e.payment_status r b in
                elim (Bool-cases (str_eq (lower (strip e.payment_status)) "failed")) [
                  | inl f ↦ rw f (b ∙ sym unpaid)
                  | inr f ↦
                      rw f
                        (elim (Bool-cases (str_eq (lower (strip e.payment_status)) "authorized")) [
                          | inl g ↦ rw g (b ∙ sym unpaid)
                          | inr g ↦ rw g (b ∙ sym unpaid)
                        ])
                ]
      ]
