-- ===== src/Database/Reviews.antt =====
-- Human reviews in `SqlHoldRepository` (src/razortrust/database.py).
use razor_trust.Database.Decisions.{audit_row, with_event, previous_of, hash_row, next_event}
use razor_trust.Repository.Reviews.{reviewed_case, review_record, is_refused, is_reviewable}
use razor_trust.Repository.Exports.{AnalystTrainingExample}
use razor_trust.Database.Queries.{
  latest_decision, latest_event, latest_snapshot, first_where, replace_hold, get_hold_row,
}
use razor_trust.Database.Tables.{
  analyst_outcome, analyst_trace, ReviewPayload, FeatureSnapshotRow, Database, SqlHashing,
}
use razor_trust.Common.{
  ℕ, String, Bool, true, false, not, Option, none, some, List, [], ◌∷◌, ◌++◌, ◌==◌, if◌then◌else◌,
}
use razor_trust.Common.Exec.{
  Result, ok, err, and_then, Exec, pure, lift, gets, or_raise, modify, raise_if, ◌>>=◌, ◌>>◌,
  invalid_transition,
}
use razor_trust.Domain.{
  unresolved, legitimate, resolved_decision, decision_eq, resolved_action, risky,
  is_fraud_confirmed, HumanReviewAction, TrainingLabel, AnalystReviewRecord,
  AnalystReviewSubmission, HoldCase, HoldDecision, release,
}

module _ {F : Type 0} where
  abbrev pub label_for : AnalystReviewSubmission F → HoldDecision → TrainingLabel
  label_for submission decision =
      if is_fraud_confirmed submission.outcome
      then risky
      else if decision_eq decision release
      then legitimate
      else unresolved

  -- The review with the hash of its event
  abbrev pub hashed_review : AnalystReviewRecord F → List ℕ → AnalystReviewRecord F
  hashed_review r record_hash = record r { audit_head_hash = record_hash }

  abbrev pub payload_of :
      AnalystReviewRecord F → HumanReviewAction → (ai authorized : HoldDecision) → ReviewPayload F
  payload_of r action ai authorized = record {
    review_id = r.review_id;
    analyst_id = r.analyst_id;
    action = action;
    ai_recommendation = ai;
    authorized_decision = authorized;
    training_label = r.training_label;
    submission = r.submission;
  }

  abbrev pub is_labelled : AnalystReviewRecord F → Bool
  is_labelled r = elim r.training_label [ unresolved ↦ false | _ ↦ true ]

  abbrev pub example_from : AnalystReviewRecord F → FeatureSnapshotRow F → AnalystTrainingExample F
  example_from r row = record {
    hold_id = r.hold_id;
    features = row.features;
    cohort = row.evaluation_input.cohort;
    training_label = r.training_label;
    outcome_reason_code = r.submission.reason_code;
    decided_at = r.submission.decided_at;
    feature_schema_version = row.feature_schema_version;
  }

module _ {F X : Type 0} where
  abbrev pub find_review : ℕ → Database F X → Option (AnalystReviewRecord F)
  find_review request_id s =
      first_where (λ r. r.submission.request_id == request_id) s.analyst_reviews

  abbrev pub known_review :
      ℕ → AnalystReviewRecord F → Exec (Database F X) (AnalystReviewRecord F × Bool)
  known_review hold_id existing =
      raise_if (not (existing.hold_id == hold_id)) invalid_transition >> pure (existing, false)

  abbrev pub with_review : HoldCase → AnalystReviewRecord F → Database F X → Database F X
  with_review hold r s = record s {
    holds = replace_hold hold s.holds;
    analyst_reviews = s.analyst_reviews ++ r ∷ [];
  }

  module _ (h : SqlHashing F X) where
    abbrev pub review_row :
        ℕ
        → AnalystReviewSubmission F
        → String
        → (review_id event_id now : ℕ) → Option (AnalystReviewRecord F)
        → Exec (Database F X) (AnalystReviewRecord F × Bool)
    review_row hold_id submission analyst_id review_id event_id now (some existing) =
        known_review hold_id existing
    review_row hold_id submission analyst_id review_id event_id now none = do
      hold ← get_hold_row hold_id
      raise_if (not (is_reviewable hold.state)) invalid_transition
      latest ← gets (latest_event hold_id)
      action ← lift (resolved_action submission)
      decision ← lift (resolved_decision submission)
      model_decision ← or_raise (latest_decision hold_id (← gets (λ s. s))) invalid_transition
      let ai = model_decision.decision_payload.decision
      raise_if (is_refused submission decision ai hold) invalid_transition
      let r =
          review_record hold_id submission analyst_id (label_for submission decision) review_id now
      let event =
          next_event event_id hold_id (analyst_trace review_id) now
            (analyst_outcome (payload_of r action ai decision)) latest
      record_hash ← lift (hash_row h event (previous_of latest))
      modify
          (with_review (reviewed_case decision submission now hold) (hashed_review r record_hash))
      modify (
          with_event "razortrust.audit.analyst-outcome"
            (audit_row h event (previous_of latest) record_hash))
      pure (hashed_review r record_hash, true)

    unfoldable pub record_analyst_review :
        ℕ
        → AnalystReviewSubmission F
        → String
        → (review_id event_id now : ℕ) → Exec (Database F X) (AnalystReviewRecord F × Bool)
    record_analyst_review hold_id submission analyst_id review_id event_id now = do
      existing ← gets (find_review submission.request_id)
      review_row hold_id submission analyst_id review_id event_id now existing

  -- The loop of `export_analyst_training_examples`
  unfoldable pub examples_of :
      Database F X → List (AnalystReviewRecord F) → Result (List (AnalystTrainingExample F))
  examples_of s [] = ok []
  examples_of s (r ∷ rs) =
      let rest = examples_of s rs in
      if not (is_labelled r) then rest else elim (latest_snapshot r.hold_id s) [
        | none ↦ err invalid_transition
        | some row ↦ and_then rest (λ xs. ok (example_from r row ∷ xs))
      ]

  unfoldable pub export_analyst_training_examples :
      Exec (Database F X) (List (AnalystTrainingExample F))
  export_analyst_training_examples s = (examples_of s s.analyst_reviews, s)
