-- ===== src/Workflow/State.antt =====
-- What `HoldService` of src/razortrust/workflow.py works on, and what it is made of.
use razor_trust.Costs.{CostMatrixArtifact}
use razor_trust.Audit.{Hashing, Entry, Line}
use razor_trust.Common.{ℕ, String, Bool, none, List}
use razor_trust.Common.Exec.{Exception, Result, ok, err, Exec}
use razor_trust.Common.Platform.{Platform}
use razor_trust.Domain.{
  EvidenceAssessment, PolicyResult, HumanReviewAction, PolicyCheck, AnalystReviewRecord,
  DecisionResponse, Thresholds, EvidenceRecord, ModelPrediction, FeatureVector, HoldCase,
  HoldDecision,
}
use razor_trust.Repository.State.{Repository}

-- The payloads of the ledger's events, as the values that their dictionaries are made of.
pub data Payload (F : Type 0) : Type 0 where
  hold_created : HoldCase → Payload F
  evidence_filed : EvidenceRecord F → Payload F
  feature_snapshot : FeatureVector F → (as_of : ℕ) → Payload F
  risk_decision : (candidate : HoldDecision) → DecisionResponse F → Payload F
  analyst_outcome :
      AnalystReviewRecord F → HumanReviewAction → (authorized ai : HoldDecision) → Payload F

pub record World (F : Type 0) : Type 0 where
  pub repository : Repository F
  pub ledger : List (Line (Payload F))

-- The objects that the service is built with. The risk model and the policy may raise.
pub record Parts (p : Platform) : Type 0 where
  pub model_version : String
  pub predict : FeatureVector p.Float → String → Result (ModelPrediction p.Float)
  pub thresholds : Thresholds p.Float
  pub human_only : Bool
  pub costs : CostMatrixArtifact p.Float
  pub cost_matrix_sha256 : String
  pub policy : PolicyCheck p.Float → Result PolicyResult
  pub assess : HoldCase → EvidenceRecord p.Float → EvidenceAssessment
  pub hashing : Hashing (Payload p.Float)
  pub evidence_release_risk_cap : p.Float

-- The identifiers and times of one scoring: of the snapshot's event, of the trace, of the decision, of
-- its event, and of the update of the hold.
pub record Stamps : Type 0 where
  pub snapshot_id : ℕ
  pub snapshot_at : ℕ
  pub trace_id : ℕ
  pub decided_at : ℕ
  pub event_id : ℕ
  pub logged_at : ℕ
  pub saved_at : ℕ

-- The arguments of `ledger.append`, with the others at their defaults.
abbrev pub entry_of :
    {F : Type 0} → ℕ → String → String → Payload F → (id now : ℕ) → Entry (Payload F)
entry_of case_id actor_id event_type payload id now = record {
  case_id = case_id;
  actor_id = actor_id;
  event_type = event_type;
  payload = payload;
  actor_type = "SYSTEM";
  model_version = none;
  feature_schema_version = none;
  policy_version = none;
  event_id = id;
  timestamp = now;
}

module _ {F A : Type 0} where
  abbrev pub on_repository : Exec (Repository F) A → Exec (World F) A
  on_repository m w = let (r, s) = m w.repository in (r, record w { repository = s })

  abbrev pub on_ledger : Exec (List (Line (Payload F))) A → Exec (World F) A
  on_ledger m w = let (r, ls) = m w.ledger in (r, record w { ledger = ls })

-- `try: m except …: handle`
abbrev pub or_else_try : {S A : Type 0} → Exec S A → (Exception → Exec S A) → Exec S A
or_else_try m handle s = let (r, s') = m s in elim r [ ok a ↦ (ok a, s') | err x ↦ handle x s' ]
