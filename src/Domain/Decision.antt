-- ===== src/Domain/Decision.antt =====
-- What the policy is asked and answers, and the decision that is stored
-- (src/razortrust/domain.py).
use razor_trust.Common.{ℕ, String, Bool, Option, List}
use razor_trust.Domain.Enums.{HoldDecision, DecisionReason}
use razor_trust.Domain.Scoring.{ProbabilityVector, Thresholds, FeatureContribution}
use razor_trust.Domain.Evidence.{EvidenceAssessment, MerchantGuidance}

pub record PolicyCheck (F : Type 0) : Type 0 where
  pub hold_id : ℕ
  pub candidate_decision : HoldDecision
  pub probabilities : ProbabilityVector F
  pub thresholds : Thresholds F
  pub novelty_override : Bool
  pub evidence_round : ℕ
  pub model_version : String
  pub policy_version : String
  pub system_error : Bool
  pub evidence_assessment : Option EvidenceAssessment
  pub evidence_release_risk_cap : F

pub record PolicyResult : Type 0 where
  pub allowed_decision : HoldDecision
  pub guardrail_triggered : Bool
  pub reasons : List String
  pub policy_version : String

-- `audit_head_hash` is a digest as its characters.
pub record DecisionResponse (F : Type 0) : Type 0 where
  pub hold_id : ℕ
  pub trace_id : ℕ
  pub decision : HoldDecision
  pub probabilities : ProbabilityVector F
  pub calibrated : Bool
  pub calibration_method : String
  pub anomaly_score : F
  pub expected_cost_units : F
  pub cost_matrix_version : String
  pub cost_matrix_sha256 : String
  pub thresholds : Thresholds F
  pub top_features : List (FeatureContribution F)
  pub model_version : String
  pub feature_schema_version : String
  pub policy_version : String
  pub evidence_round : ℕ
  pub novelty_override : Bool
  pub reason_code : DecisionReason
  pub audit_head_hash : List ℕ
  pub evidence_assessment : Option EvidenceAssessment
  pub merchant_guidance : Option MerchantGuidance
  pub created_at : ℕ
