-- ===== src/Database/Tables.antt =====
-- The tables of src/razortrust/database.py, as their rows in the order of insertion. The rows of
-- `HoldCaseRow`, `EvidenceSubmissionRow` and `AnalystReviewRow` are the models that are read from them.
use razor_trust.Common.{ℕ, String, Option, List, []}
use razor_trust.Domain.{
  AnalystReviewRecord, AnalystReviewSubmission, EvidenceRecord, FeatureVector, TrainingLabel,
  DecisionResponse, HoldEvaluationInput, HoldCase, HumanReviewAction, HoldDecision,
}

pub record FeatureSnapshotRow (F : Type 0) : Type 0 where
  pub hold_id : ℕ
  pub feature_schema_version : String
  pub as_of_timestamp : ℕ
  pub evaluation_input : HoldEvaluationInput F
  pub features : FeatureVector F
  pub created_at : ℕ

-- The columns that repeat the payload are left out.
pub record ModelDecisionRow (F : Type 0) : Type 0 where
  pub hold_id : ℕ
  pub decision_payload : DecisionResponse F
  pub created_at : ℕ

-- The trace of a decision is the caller's, that of a review names the review.
pub data TraceId : Type 0 where
  given_trace : String → TraceId
  analyst_trace : ℕ → TraceId

-- The payload of a review's event
pub record ReviewPayload (F : Type 0) : Type 0 where
  pub review_id : ℕ
  pub analyst_id : String
  pub action : HumanReviewAction
  pub ai_recommendation : HoldDecision
  pub authorized_decision : HoldDecision
  pub training_label : TrainingLabel
  pub submission : AnalystReviewSubmission F

-- `X` is the JSON of a decision's event, which the caller gives.
pub data EventPayload (F X : Type 0) : Type 0 where
  risk_decision : X → EventPayload F X
  analyst_outcome : ReviewPayload F → EventPayload F X

-- `event`, of schema version 2.0; its type goes with its payload.
pub record SqlEvent (F X : Type 0) : Type 0 where
  pub event_id : ℕ
  pub case_id : ℕ
  pub sequence_no : ℕ
  pub trace_id : TraceId
  pub timestamp : ℕ
  pub payload : EventPayload F X

-- `record`: the event with its hashes, which is the row's `event_payload`
pub record AuditEventRow (F X : Type 0) : Type 0 where
  pub event : SqlEvent F X
  pub previous_hash : List ℕ
  pub record_hash : List ℕ

pub record OutboxEventRow (F X : Type 0) : Type 0 where
  pub topic : String
  pub payload : AuditEventRow F X
  pub created_at : ℕ
  pub published_at : Option ℕ

pub record Database (F X : Type 0) : Type 0 where
  pub holds : List HoldCase
  pub snapshots : List (FeatureSnapshotRow F)
  pub model_decisions : List (ModelDecisionRow F)
  pub evidence_submissions : List (EvidenceRecord F)
  pub audit_events : List (AuditEventRow F X)
  pub outbox_events : List (OutboxEventRow F X)
  pub analyst_reviews : List (AnalystReviewRecord F)

-- RFC 8785 and SHA-256, which are libraries.
pub record SqlHashing (F X : Type 0) : Type 0 where
  pub canonical : SqlEvent F X → List ℕ → List ℕ
  pub sha256_hex : List ℕ → List ℕ

abbrev pub empty_database : {F X : Type 0} → Database F X
empty_database = record {
  holds = [];
  snapshots = [];
  model_decisions = [];
  evidence_submissions = [];
  audit_events = [];
  outbox_events = [];
  analyst_reviews = [];
}
