-- ===== src/Tests/Fixtures.antt =====
-- Concrete data: numbers for floats, and one hold with its decision and its review.
use razor_trust.Common.{◌∷◌, List, ℕ, ◌+◌, ◌-◌, ◌*◌, ◌/◌, true, false, none, some, [], ltb, leb}
use razor_trust.Common.Platform.{Platform}
use razor_trust.Domain.{
  approve_release, campaign, model_policy, AnalystReviewSubmission, EvidenceSubmission,
  ProbabilityVector, Thresholds, FeatureContribution, HoldCreate, DecisionResponse, ModelPrediction,
  HoldDecision,
}

abbrev total : List ℕ → ℕ
total [] = 0
total (x ∷ xs) = x + total xs

abbrev pub naturals : Platform
naturals = record {
  Float = ℕ;
  lt = ltb;
  le = leb;
  add = λ a b. a + b;
  sub = λ a b. a - b;
  mul = λ a b. a * b;
  div = λ a b. a / b;
  neg = λ a. 0;
  square = λ a. a * a;
  sum = total;
  is_finite = λ a. true;
  log = λ a. a;
  fmean = λ xs. 0;
  pstdev = λ xs. 0;
  of_int = λ a. a;
  lit = λ m e. m;
  round6 = λ a. a;
  total_seconds = λ a. a / 1000000;
  upper = λ s. s;
  strip = λ s. s;
}

abbrev pub request : HoldCreate
request = record {
  request_id = 3;
  merchant_id = "m1";
  source_event_id = "e1";
  triggered_at = 1000;
  reason_code = some "CAMPAIGN";
}

abbrev pub likely_safe : ProbabilityVector ℕ
likely_safe = record { release = 90; evidence_needed = 8; escalate = 2 }

abbrev pub limits : Thresholds ℕ
limits = record { release = 80; escalate = 60 }

abbrev pub decision_of : HoldDecision → DecisionResponse ℕ
decision_of d = record {
  hold_id = 7;
  trace_id = 1;
  decision = d;
  probabilities = likely_safe;
  calibrated = true;
  calibration_method = "isotonic";
  anomaly_score = 0;
  expected_cost_units = 0;
  cost_matrix_version = "1";
  cost_matrix_sha256 = "";
  thresholds = limits;
  top_features = [];
  model_version = "m@1";
  feature_schema_version = "1.0.0";
  policy_version = "p@1";
  evidence_round = 0;
  novelty_override = false;
  reason_code = model_policy;
  audit_head_hash = [];
  evidence_assessment = none;
  merchant_guidance = none;
  created_at = 1010;
}

abbrev pub approval : AnalystReviewSubmission ℕ
approval = record {
  request_id = 5;
  outcome = none;
  action = some approve_release;
  authorized_decision = none;
  reason_code = "OK";
  rationale = "Documents match.";
  decided_at = 1020;
  agent_id = none;
  agent_session = none;
  delegated_permissions = [];
  authorized_amount = none;
  authorized_item = none;
  infrastructure_provider = none;
  transaction_identity = none;
}

abbrev pub invoice : EvidenceSubmission
invoice = record {
  request_id = 9;
  evidence_type = campaign;
  submitted_at = 7200000000;
  evidence_observed_at = 3600000000;
  content_sha256 = "aa";
  metadata = [];
}

abbrev pub contribution : FeatureContribution ℕ
contribution = record {
  feature = "gmv_delta_z";
  observed_value = 4;
  contribution_value = 1;
  direction = HoldDecision.escalate;
  reference = "baseline";
  attribution_method = "shap";
  model_output_explained = none;
  template_id = none;
}

abbrev pub prediction : ModelPrediction ℕ
prediction = record {
  probabilities = likely_safe;
  calibrated = true;
  calibration_method = "isotonic";
  anomaly_score = 0;
  anomaly_raw_score = none;
  anomaly_reference_max = none;
  anomaly_tail_excess = none;
  anomaly_reference_size = none;
  anomaly_model_version = none;
  anomaly_reference_mode = none;
  novelty_override = false;
  top_features = [];
  model_version = "m@1";
}
