-- ===== src/Domain/Enums.antt =====
-- The enumerations of src/razortrust/domain.py, with the `==` of their members.
use razor_trust.Common.{ℕ, Bool, true, false, ◌==◌}

pub data HoldDecision : Type 0 where
  release evidence_needed escalate : HoldDecision

-- `opened` is the source's OPEN, which is a reserved word here.
pub data HoldState : Type 0 where
  opened awaiting_evidence evidence_submitted resolved human_review denied : HoldState

pub data ActorRole : Type 0 where
  merchant risk_analyst risk_service admin evidence_service : ActorRole

pub data DecisionReason : Type 0 where
  model_policy novelty_disagreement policy_guardrail model_error human_only policy_error
        evidence_exhausted :
      DecisionReason

pub data EvidenceType : Type 0 where
  campaign fulfillment geo_expansion auth_incident inventory other : EvidenceType

pub data EvidenceVerdict : Type 0 where
  supported insufficient contradictory : EvidenceVerdict

pub data AnalystOutcome : Type 0 where
  cleared fraud_confirmed continue_hold : AnalystOutcome

pub data HumanReviewAction : Type 0 where
  approve_release request_evidence escalate override_ai : HumanReviewAction

-- The literals of `AnalystReviewRecord.training_label`.
pub data TrainingLabel : Type 0 where
  legitimate risky unresolved : TrainingLabel

abbrev decision_rank : HoldDecision → ℕ
decision_rank release = 0
decision_rank evidence_needed = 1
decision_rank HoldDecision.escalate = 2

abbrev pub decision_eq : HoldDecision → HoldDecision → Bool
decision_eq a b = decision_rank a == decision_rank b

abbrev state_rank : HoldState → ℕ
state_rank opened = 0
state_rank awaiting_evidence = 1
state_rank evidence_submitted = 2
state_rank resolved = 3
state_rank human_review = 4
state_rank denied = 5

abbrev pub state_eq : HoldState → HoldState → Bool
state_eq a b = state_rank a == state_rank b

abbrev evidence_rank : EvidenceType → ℕ
evidence_rank campaign = 0
evidence_rank fulfillment = 1
evidence_rank geo_expansion = 2
evidence_rank auth_incident = 3
evidence_rank inventory = 4
evidence_rank other = 5

abbrev pub evidence_type_eq : EvidenceType → EvidenceType → Bool
evidence_type_eq a b = evidence_rank a == evidence_rank b

abbrev role_rank : ActorRole → ℕ
role_rank merchant = 0
role_rank risk_analyst = 1
role_rank risk_service = 2
role_rank admin = 3
role_rank evidence_service = 4

abbrev pub role_eq : ActorRole → ActorRole → Bool
role_eq a b = role_rank a == role_rank b

abbrev pub is_supported : EvidenceVerdict → Bool
is_supported supported = true
is_supported _ = false
