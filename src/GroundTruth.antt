-- ===== src/GroundTruth.antt =====
-- `_classify_outcome` of src/razortrust/ground_truth.py: what the provider's rows say of a case. A row is
-- its columns that the function reads; `lower` and `strip` are the methods of `str`.
use razor_trust.Common.{
  ℕ, zero, suc, String, ◌≡◌, refl, inl, inr, Bool, true, false, not, ◌||◌, Option, none, some, List,
  [], ◌∷◌, arith, str_eq, ltb, if◌then◌else◌, Bool-cases,
}

pub record PaymentRow : Type 0 where
  pub amount_refunded : Option ℕ
  pub status : Option String

pub record DisputeRow : Type 0 where
  pub phase : Option String

-- `str(value or "")`
abbrev pub text_of : Option String → String
text_of none = ""
text_of (some s) = s

-- `int(value or 0)`
abbrev pub number_of : Option ℕ → ℕ
number_of none = 0
number_of (some n) = n

-- `provider_outcome`, which is one of eight strings.
pub data ProviderOutcome : Type 0 where
  fraud_dispute_confirmed dispute_confirmed refund_observed not_yet_observed : ProviderOutcome
  payment_failed payment_captured payment_authorized payment_observed : ProviderOutcome

module _ (lower strip : String → String) where
  abbrev pub is_fraud : DisputeRow → Bool
  is_fraud row = str_eq (lower (text_of row.phase)) "fraud"

  abbrev pub any_fraud : List DisputeRow → Bool
  any_fraud [] = false
  any_fraud (row ∷ rows) = is_fraud row || any_fraud rows

  abbrev pub outcome_of_status : String → ProviderOutcome
  outcome_of_status status =
      if str_eq status "failed"
      then payment_failed
      else if str_eq status "captured"
      then payment_captured
      else if str_eq status "authorized"
      then payment_authorized
      else if str_eq status "refunded"
      then refund_observed
      else payment_observed

  abbrev pub outcome_of_payment : Option PaymentRow → ProviderOutcome
  outcome_of_payment none = not_yet_observed
  outcome_of_payment (some payment) =
      if ltb 0 (number_of payment.amount_refunded)
      then refund_observed
      else outcome_of_status (lower (strip (text_of payment.status)))

  -- The outcome, `dispute_confirmed` and `fraud_confirmed`; of the refunds only their number is read.
  unfoldable pub classify_outcome :
      Option PaymentRow → (refunds : ℕ) → List DisputeRow → ProviderOutcome × Bool × Bool
  classify_outcome payment refunds (row ∷ rows) =
      if any_fraud (row ∷ rows)
      then (fraud_dispute_confirmed, true, true)
      else (dispute_confirmed, true, false)
  classify_outcome payment zero [] = (outcome_of_payment payment, false, false)
  classify_outcome payment (suc n) [] = (refund_observed, false, false)

  abbrev pub is_empty_list : List DisputeRow → Bool
  is_empty_list [] = true
  is_empty_list (row ∷ rows) = false

  abbrev pub is_fraud_outcome : ProviderOutcome → Bool
  is_fraud_outcome fraud_dispute_confirmed = true
  is_fraud_outcome _ = false

  status-is_fraud_outcome : (s : String) → is_fraud_outcome (outcome_of_status s) ≡ false
  status-is_fraud_outcome s = ground arith

  payment-is_fraud_outcome :
      (p : Option PaymentRow) → is_fraud_outcome (outcome_of_payment p) ≡ false
  payment-is_fraud_outcome none = refl
  payment-is_fraud_outcome (some p) = elim (Bool-cases (ltb 0 (number_of p.amount_refunded))) [
    | inl b ↦ rw b refl
    | inr b ↦ rw b (status-is_fraud_outcome (lower (strip (text_of p.status))))
  ]

  -- A dispute is confirmed exactly where there is one, a fraud exactly where one of the disputes
  -- has the phase fraud, and the outcome is FRAUD_DISPUTE_CONFIRMED exactly where a fraud is
  -- confirmed, whatever the payment and the refunds.
  pub classify_outcome_flags :
      (payment : Option PaymentRow) (refunds : ℕ) (disputes : List DisputeRow)
      → let (outcome, dispute, fraud) = classify_outcome payment refunds disputes in
        (dispute ≡ not (is_empty_list disputes))
        × (fraud ≡ any_fraud disputes)
        × (is_fraud_outcome outcome ≡ fraud)
  unfolding classify_outcome
  classify_outcome_flags payment refunds (row ∷ rows) = elim (Bool-cases (any_fraud (row ∷ rows))) [
    | inl b ↦ rw b (refl, refl, refl)
    | inr b ↦ rw b (refl, refl, refl)
  ]
  classify_outcome_flags payment zero [] = (refl, refl, payment-is_fraud_outcome payment)
  classify_outcome_flags payment (suc n) [] = (refl, refl, refl)
