-- ===== src/Costs.antt =====
-- The cost matrix of src/razortrust/costs.py, and `CostPolicy` of src/razortrust/risk.py.
pub mod Choice
use razor_trust.Common.{
  ℕ, zero, suc, ◌+◌, ◌-◌, ◌*◌, ◌/◌, ◌%◌, ◌≤◌, ◌<◌, String, ◌≡◌, refl, sym, ap, ◌∙◌, ◌≢◌, ◌↔◌, ◌⊎◌,
  inl, inr, Bool, true, false, not, ◌&&◌, ◌||◌, Option, none, some, List, [], ◌∷◌, ◌++◌, map, arith,
  str_eq, eq_iff, ltb, leb, ◌==◌, if◌then◌else◌, is_some, ==_iff, ==_refl, Bool-cases, Option-cases,
  length, take, replicate, last, length-append, All, All-append, All_mono,
}
use razor_trust.Common.Exec.{
  Exception, Result, ok, err, and_then, Exec, pure, raise, lift, gets, or_raise, modify, raise_if,
  ◌>>=◌, ◌>>◌, Result-cases, hold_not_found, invalid_transition, key_error, arithmetic_error,
  runtime_error, value_error, audit_format_error, policy_unavailable, authorization_unavailable,
  assertion_error, index_error,
}
use razor_trust.Common.Dict.{Dict, lookup, insert, lookup-insert, lookup-empty}
use razor_trust.Common.Platform.{Platform, IsTotal}
use razor_trust.Domain.{
  Thresholds, ModelPrediction, decision_eq, ProbabilityVector, HoldDecision, release,
  evidence_needed, HoldState, opened, awaiting_evidence, evidence_submitted, resolved, human_review,
  denied,
}

pub record CostMatrixArtifact (F : Type 0) : Type 0 where
  pub schema_version : String
  pub cost_matrix_version : String
  pub currency : String
  pub actions : List HoldDecision
  pub true_states : List HoldDecision
  pub matrix : List (List F)

-- `==` on lists of decisions
unfoldable pub same_decisions : List HoldDecision → List HoldDecision → Bool
same_decisions [] [] = true
same_decisions (a ∷ as') (b ∷ bs) = decision_eq a b && same_decisions as' bs
same_decisions _ _ = false

-- `list(HoldDecision)`
abbrev pub canonical_order : List HoldDecision
canonical_order = release ∷ evidence_needed ∷ HoldDecision.escalate ∷ []

module _ (p : Platform) where
  open p use {Float, lt, le, mul, sum, lit, round6}

  unfoldable pub wrong_width : List (List Float) → Bool
  wrong_width [] = false
  wrong_width (row ∷ rows) = not (length row == 3) || wrong_width rows

  unfoldable pub has_negative_in : List Float → Bool
  has_negative_in [] = false
  has_negative_in (x ∷ xs) = lt x (lit 0 0) || has_negative_in xs

  unfoldable pub has_negative : List (List Float) → Bool
  has_negative [] = false
  has_negative (row ∷ rows) = has_negative_in row || has_negative rows

  -- `validate_shape_and_order`: `true` accepts
  unfoldable pub validate_shape_and_order : CostMatrixArtifact Float → Bool
  unfolding same_decisions wrong_width
  validate_shape_and_order m =
      same_decisions m.actions canonical_order
      && same_decisions m.true_states canonical_order
      && (length m.matrix == 3 && not (wrong_width m.matrix))
      && not (has_negative m.matrix)

  -- `cost * probability for … in zip(row, probabilities, strict=True)`: `zip` raises `ValueError` where
  -- the lengths differ.
  pub products : List Float → List Float → Result (List Float)
  products [] [] = ok []
  products (c ∷ cs) (x ∷ xs) = let rest = products cs xs in and_then rest (λ ys. ok (mul c x ∷ ys))
  products _ _ = err value_error

  pub expected_costs :
      List HoldDecision → List (List Float) → List Float → Result (List (HoldDecision × Float))
  expected_costs [] [] v = ok []
  expected_costs (a ∷ as') (row ∷ rows) v =
      let rest = expected_costs as' rows v in
      and_then (products row v) (λ ys. and_then rest (λ xs. ok ((a, sum ys) ∷ xs)))
  expected_costs _ _ v = err value_error

  abbrev pub vector : ProbabilityVector Float → List Float
  vector v = v.release ∷ v.evidence_needed ∷ v.escalate ∷ []

  -- `expected_costs[action]`
  pub cost_at : HoldDecision → List (HoldDecision × Float) → Result Float
  cost_at a [] = err key_error
  cost_at a ((b, x) ∷ m) = if decision_eq b a then ok x else cost_at a m

  -- The candidate of `choose`: its chain of tests replaces the cheapest action in every branch.
  unfoldable pub candidate : ModelPrediction Float → ℕ → Thresholds Float → HoldDecision
  candidate m evidence_round t =
      if le t.release m.probabilities.release && not m.novelty_override
      then release
      else if le t.escalate m.probabilities.escalate
      then HoldDecision.escalate
      else if evidence_round == 0
      then evidence_needed
      else HoldDecision.escalate

  module _ (costs : CostMatrixArtifact Float) where
    -- `CostPolicy.expected_cost`
    unfoldable pub expected_cost : ModelPrediction Float → HoldDecision → Result Float
    unfolding cost_at expected_costs products
    expected_cost m action =
        and_then (expected_costs costs.actions costs.matrix (vector m.probabilities))
          (λ xs. and_then (cost_at action xs) (λ x. ok (round6 x)))

    -- `CostPolicy.choose`. The cheapest action is computed first, and never used; `min` of no costs
    -- is a `ValueError`.
    abbrev non_empty : List (HoldDecision × Float) → Result (List (HoldDecision × Float))
    non_empty [] = err value_error
    non_empty (x ∷ xs) = ok (x ∷ xs)

    unfoldable pub choose :
        ModelPrediction Float → ℕ → Thresholds Float → Result (HoldDecision × Float)
    unfolding cost_at expected_costs products
    choose m evidence_round t =
        and_then
          (and_then (expected_costs costs.actions costs.matrix (vector m.probabilities)) non_empty)
          λ xs.
            and_then (cost_at (candidate m evidence_round t) xs)
              λ x. ok (candidate m evidence_round t, round6 x)
