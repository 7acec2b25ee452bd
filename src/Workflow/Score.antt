-- ===== src/Workflow/Score.antt =====
-- `HoldService._score` of src/razortrust/workflow.py.
use razor_trust.Workflow.Failures.{ask, decision_reason, default_thresholds, failure_prediction}
use razor_trust.Guidance.{build_merchant_guidance}
use razor_trust.Features.{build_point_in_time_features}
use razor_trust.Audit.{append, Entry, genesis_hash}
use razor_trust.Costs.{choose, expected_cost}
use razor_trust.Workflow.State.{
  risk_decision, feature_snapshot, entry_of, Payload, or_else_try, on_ledger, on_repository, World,
  Stamps, Parts,
}
use razor_trust.Common.{ℕ, String, Bool, true, false, not, ◌&&◌, Option, none, some, if◌then◌else◌}
use razor_trust.Common.Exec.{
  caught_by_score, Exception, Result, ok, err, and_then, Exec, pure, raise, lift, ◌>>=◌, ◌>>◌,
}
use razor_trust.Common.Platform.{Platform}
use razor_trust.Domain.{
  model_error, policy_error, human_only, FeatureVector, EvidenceRecord, PolicyCheck,
  HoldEvaluationInput, is_supported, DecisionResponse, DecisionReason, EvidenceAssessment, HoldCase,
  PolicyResult, Thresholds, ModelPrediction, HoldDecision, release,
}
use razor_trust.Repository.Cases

abbrev schema_version : String
schema_version = "1.0.0"

module _ (p : Platform) where
  open p use {Float, lt, lit}

  -- The local variables of `_score` when it asks the policy.
  pub record Draft : Type 0 where
    pub candidate : HoldDecision
    pub expected_cost : Float
    pub prediction : ModelPrediction Float
    pub thresholds : Thresholds Float
    pub assessment : Option EvidenceAssessment
    pub system_error : Bool

  module _ (parts : Parts p) where
    abbrev assess_option : HoldCase → Option (EvidenceRecord Float) → Option EvidenceAssessment
    assess_option hold none = none
    assess_option hold (some e) = some (parts.assess hold e)

    abbrev drafted :
        ModelPrediction Float → HoldDecision × Float → Option EvidenceAssessment → Draft
    drafted m (c, cost) assessment = record {
      candidate = c;
      expected_cost = cost;
      prediction = m;
      thresholds = parts.thresholds;
      assessment = assessment;
      system_error = false;
    }

    -- The `try` block up to the assessment of the evidence.
    unfoldable pub draft :
        HoldCase
        → HoldEvaluationInput Float
        → Option (EvidenceRecord Float)
        → Result (FeatureVector Float × Draft)
    draft hold x evidence = and_then (build_point_in_time_features p hold x) λ f.
        and_then (parts.predict f x.cohort) λ m.
          and_then (choose p parts.costs m hold.evidence_round parts.thresholds)
            λ c. ok (f, drafted m c (assess_option hold evidence))

    -- With evidence, the candidate is chosen again.
    abbrev evidence_candidate : ModelPrediction Float → EvidenceAssessment → HoldDecision
    evidence_candidate m a =
        if is_supported a.verdict
          && lt m.probabilities.escalate parts.evidence_release_risk_cap
          && not m.novelty_override
        then release
        else HoldDecision.escalate

    abbrev reconsider_by : Draft → Option EvidenceAssessment → Result Draft
    reconsider_by d none = ok d
    reconsider_by d (some a) =
        let c = evidence_candidate d.prediction a in
        and_then (expected_cost p parts.costs d.prediction c)
          λ cost. ok (record d { candidate = c; expected_cost = cost })

    abbrev snapshot_entry : HoldCase → FeatureVector Float → Stamps → Entry (Payload Float)
    snapshot_entry hold f st =
        record (entry_of hold.hold_id "feature-builder" "FEATURE_SNAPSHOT_CREATED"
          (feature_snapshot f hold.triggered_at) st.snapshot_id st.snapshot_at) {
            feature_schema_version = some schema_version;
          }

    -- The rest of the `try` block.
    unfoldable pub attempt :
        HoldCase
        → HoldEvaluationInput Float
        → Stamps
        → FeatureVector Float × Draft
        → Exec (World Float) Draft
    attempt hold x st (f, d) = do
      d' ← lift (reconsider_by d d.assessment)
      on_repository (Cases.save_feature_snapshot hold.hold_id x f)
      head ← on_ledger (append parts.hashing (snapshot_entry hold f st))
      pure d'

    -- What the `except` block leaves; an assessment that was made stays.
    abbrev pub failed : Option EvidenceAssessment → Draft
    failed assessment = record {
      candidate = HoldDecision.escalate;
      expected_cost = lit 0 0;
      prediction = failure_prediction p parts.model_version;
      thresholds = default_thresholds p;
      assessment = assessment;
      system_error = true;
    }

    abbrev recover : Option EvidenceAssessment → Exception → Exec (World Float) Draft
    recover assessment x = if caught_by_score x then pure (failed assessment) else raise x

    unfoldable pub drafting :
        HoldCase
        → HoldEvaluationInput Float
        → Stamps
        → Result (FeatureVector Float × Draft)
        → Exec (World Float) Draft
    drafting hold x st (err y) = recover none y
    drafting hold x st (ok (f, d)) = or_else_try (attempt hold x st (f, d)) (recover d.assessment)

    abbrev pub policy_request : HoldCase → Draft → PolicyCheck Float
    policy_request hold d = record {
      hold_id = hold.hold_id;
      candidate_decision = d.candidate;
      probabilities = d.prediction.probabilities;
      thresholds = d.thresholds;
      novelty_override = d.prediction.novelty_override;
      evidence_round = hold.evidence_round;
      model_version = d.prediction.model_version;
      policy_version = "hold-policy@1";
      system_error = d.system_error;
      evidence_assessment = d.assessment;
      evidence_release_risk_cap = parts.evidence_release_risk_cap;
    }

    abbrev pub reason_of : HoldCase → Draft → PolicyResult × Bool → DecisionReason
    reason_of hold d (r, unavailable) =
        if parts.human_only
        then human_only
        else if unavailable
        then policy_error
        else if d.system_error
        then model_error
        else decision_reason r hold.evidence_round

    abbrev pub response : HoldCase → Draft → PolicyResult × Bool → Stamps → DecisionResponse Float
    response hold d (r, unavailable) st = record {
      hold_id = hold.hold_id;
      trace_id = st.trace_id;
      decision = r.allowed_decision;
      probabilities = d.prediction.probabilities;
      calibrated = d.prediction.calibrated;
      calibration_method = d.prediction.calibration_method;
      anomaly_score = d.prediction.anomaly_score;
      expected_cost_units = d.expected_cost;
      cost_matrix_version = parts.costs.cost_matrix_version;
      cost_matrix_sha256 = parts.cost_matrix_sha256;
      thresholds = d.thresholds;
      top_features = d.prediction.top_features;
      model_version = d.prediction.model_version;
      feature_schema_version = schema_version;
      policy_version = r.policy_version;
      evidence_round = hold.evidence_round;
      novelty_override = d.prediction.novelty_override;
      reason_code = reason_of hold d (r, unavailable);
      audit_head_hash = genesis_hash;
      evidence_assessment = d.assessment;
      merchant_guidance =
          build_merchant_guidance r.allowed_decision d.prediction.top_features st.decided_at 48;
      created_at = st.decided_at;
    }

    abbrev pub decision_entry :
        HoldCase → Draft → DecisionResponse Float → Stamps → Entry (Payload Float)
    decision_entry hold d r st =
        record (entry_of hold.hold_id "risk-decision-service" "RISK_DECISION"
          (risk_decision d.candidate r) st.event_id st.logged_at) {
            model_version = some d.prediction.model_version;
            feature_schema_version = some schema_version;
            policy_version = some r.policy_version;
          }

    -- The decision is logged, and then stored with the head hash of the ledger.
    unfoldable pub store :
        Entry (Payload Float)
        → DecisionResponse Float
        → (saved_at : ℕ) → Exec (World Float) (DecisionResponse Float)
    store x r saved_at = do
      head ← on_ledger (append parts.hashing x)
      let final : DecisionResponse Float = record r { audit_head_hash = head }
      saved ← on_repository (Cases.save_decision final saved_at)
      pure final

    unfoldable pub conclude :
        HoldCase
        → Draft
        → PolicyResult × Bool
        → Stamps
        → Exec (World Float) (DecisionResponse Float)
    unfolding store
    conclude hold d r st =
        store (decision_entry hold d (response hold d r st) st) (response hold d r st) st.saved_at

    -- `_score`
    unfoldable pub score :
        HoldCase
        → HoldEvaluationInput Float
        → Option (EvidenceRecord Float)
        → Stamps
        → Exec (World Float) (DecisionResponse Float)
    score hold x evidence st = do
      d ← drafting hold x st (draft hold x evidence)
      r ← lift (ask (parts.policy (policy_request hold d)))
      conclude hold d r st
