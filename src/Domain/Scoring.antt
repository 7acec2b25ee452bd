-- ===== src/Domain/Scoring.antt =====
-- Features, probabilities and predictions (src/razortrust/domain.py).
use razor_trust.Common.{ℕ, String, Bool, Option, List}
use razor_trust.Domain.Enums.{HoldDecision}

pub record FeatureVector (F : Type 0) : Type 0 where
  pub volume_delta_z : F
  pub gmv_delta_z : F
  pub ticket_size_delta_z : F
  pub new_device_ratio : F
  pub new_geo_ratio : F
  pub refund_rate_delta_z : F
  pub chargeback_rate_delta_z : F
  pub failed_auth_ratio : F
  pub volume_trend_slope : F
  pub interarrival_time_cv : F
  pub device_entropy : F
  pub geo_entropy : F
  pub amount_distribution_kl : F

pub record ProbabilityVector (F : Type 0) : Type 0 where
  pub release : F
  pub evidence_needed : F
  pub escalate : F

pub record Thresholds (F : Type 0) : Type 0 where
  pub release : F
  pub escalate : F

pub record FeatureContribution (F : Type 0) : Type 0 where
  pub feature : String
  pub observed_value : F
  pub contribution_value : F
  pub direction : HoldDecision
  pub reference : String
  pub attribution_method : String
  pub model_output_explained : Option HoldDecision
  pub template_id : Option String

pub record ModelPrediction (F : Type 0) : Type 0 where
  pub probabilities : ProbabilityVector F
  pub calibrated : Bool
  pub calibration_method : String
  pub anomaly_score : F
  pub anomaly_raw_score : Option F
  pub anomaly_reference_max : Option F
  pub anomaly_tail_excess : Option F
  pub anomaly_reference_size : Option ℕ
  pub anomaly_model_version : Option String
  pub anomaly_reference_mode : Option String
  pub novelty_override : Bool
  pub top_features : List (FeatureContribution F)
  pub model_version : String
