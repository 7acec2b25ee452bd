-- ===== src/Repository/Exports.antt =====
-- The training examples of `InMemoryHoldRepository` (src/razortrust/repository.py).
use razor_trust.Common.{
  ℕ, String, Bool, true, false, List, [], ◌∷◌, ◌++◌, none, some, if◌then◌else◌,
}
use razor_trust.Common.Dict.{Dict, lookup}
use razor_trust.Common.Exec.{Result, ok, err, and_then, Exec, key_error}
use razor_trust.Domain.{
  TrainingLabel, unresolved, FeatureVector, HoldEvaluationInput, AnalystReviewRecord,
}
use razor_trust.Repository.State.{Repository}

-- One example for each review with a settled label; a hold that has no feature snapshot is a
-- `KeyError`.
pub record AnalystTrainingExample (F : Type 0) : Type 0 where
  pub hold_id : ℕ
  pub features : FeatureVector F
  pub cohort : String
  pub training_label : TrainingLabel
  pub outcome_reason_code : String
  pub decided_at : ℕ
  pub feature_schema_version : String

abbrev pub is_unresolved : TrainingLabel → Bool
is_unresolved unresolved = true
is_unresolved _ = false

module _ {F : Type 0} where
  abbrev example_of :
      ℕ → AnalystReviewRecord F → FeatureVector F → HoldEvaluationInput F → AnalystTrainingExample F
  example_of hold_id r features input = record {
    hold_id = hold_id;
    features = features;
    cohort = input.cohort;
    training_label = r.training_label;
    outcome_reason_code = r.submission.reason_code;
    decided_at = r.submission.decided_at;
    feature_schema_version = "1.0.0";
  }

  abbrev snapshot_of : ℕ → Repository F → Result (FeatureVector F × HoldEvaluationInput F)
  snapshot_of hold_id s = elim (lookup hold_id s.features) [
    | none ↦ err key_error
    | some f ↦ elim (lookup hold_id s.evaluation_inputs) [
      | none ↦ err key_error
      | some i ↦ ok (f, i)
    ]
  ]

  pub export_hold :
      Repository F → ℕ → List (AnalystReviewRecord F) → Result (List (AnalystTrainingExample F))
  export_hold s hold_id [] = ok []
  export_hold s hold_id (r ∷ rs) =
      let rest = export_hold s hold_id rs in
      if is_unresolved r.training_label
      then rest
      else and_then (snapshot_of hold_id s)
          λ (f, i). and_then rest (λ xs. ok (example_of hold_id r f i ∷ xs))

  pub export_all :
      Repository F → Dict (List (AnalystReviewRecord F)) → Result (List (AnalystTrainingExample F))
  export_all s [] = ok []
  export_all s ((hold_id, rs) ∷ d) =
      let rest = export_all s d in
      and_then (export_hold s hold_id rs) (λ xs. and_then rest (λ ys. ok (xs ++ ys)))

  unfoldable pub export_analyst_training_examples :
      Exec (Repository F) (List (AnalystTrainingExample F))
  unfolding export_hold export_all
  export_analyst_training_examples s = (export_all s s.reviews, s)
