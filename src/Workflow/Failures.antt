-- ===== src/Workflow/Failures.antt =====
-- What `HoldService._score` of src/razortrust/workflow.py falls back on, and its reasons.
use razor_trust.Features.Statistics.{has_str}
use razor_trust.Common.{ℕ, String, Bool, true, false, not, ◌||◌, none, [], ◌∷◌, ◌==◌, if◌then◌else◌}
use razor_trust.Common.Exec.{Result, ok, err, policy_unavailable}
use razor_trust.Common.Platform.{Platform}
use razor_trust.Domain.{
  policy_guardrail, evidence_exhausted, novelty_disagreement, model_policy, DecisionReason,
  ModelPrediction, PolicyResult, Thresholds, HoldDecision,
}

-- What the policy decides where it cannot be asked.
abbrev pub fail_safe : PolicyResult
fail_safe = record {
  allowed_decision = HoldDecision.escalate;
  guardrail_triggered = true;
  reasons = "POLICY_ENGINE_UNAVAILABLE" ∷ [];
  policy_version = "fail-safe@1";
}

-- The policy's result, and whether it is the fail-safe one.
unfoldable pub ask : Result PolicyResult → Result (PolicyResult × Bool)
ask (ok r) = ok (r, false)
ask (err policy_unavailable) = ok (fail_safe, true)
ask (err x) = err x

-- `_decision_reason`
unfoldable pub decision_reason : PolicyResult → ℕ → DecisionReason
decision_reason r evidence_round =
    if not r.guardrail_triggered
    then model_policy
    else if has_str "NOVELTY_OVERRIDE" r.reasons
    then novelty_disagreement
    else if has_str "EVIDENCE_ROUND_EXHAUSTED" r.reasons || evidence_round == 1
    then evidence_exhausted
    else policy_guardrail

module _ (p : Platform) where
  open p use {Float, lit}

  -- `DEFAULT_THRESHOLDS`
  abbrev pub default_thresholds : Thresholds Float
  default_thresholds = record { release = lit 80 2; escalate = lit 55 2 }

  -- `_failure_prediction`
  abbrev pub failure_prediction : String → ModelPrediction Float
  failure_prediction model_version = record {
    probabilities = record { release = lit 0 0; evidence_needed = lit 0 0; escalate = lit 1 0 };
    calibrated = false;
    calibration_method = "unavailable";
    anomaly_score = lit 1 0;
    anomaly_raw_score = none;
    anomaly_reference_max = none;
    anomaly_tail_excess = none;
    anomaly_reference_size = none;
    anomaly_model_version = none;
    anomaly_reference_mode = none;
    novelty_override = true;
    top_features = [];
    model_version = model_version;
  }
