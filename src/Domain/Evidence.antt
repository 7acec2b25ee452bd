-- ===== src/Domain/Evidence.antt =====
-- Evidence, its assessment and the guidance that asks for it (src/razortrust/domain.py).
use razor_trust.Common.{ℕ, String, Bool, Option, List}
use razor_trust.Domain.Enums.{EvidenceType, EvidenceVerdict}

-- A metadata value is a scalar; `text` is a string, and `scalar` the `str()` of any other.
pub data MetadataValue : Type 0 where
  text : String → MetadataValue
  scalar : String → MetadataValue

pub record EvidenceSubmission : Type 0 where
  pub request_id : ℕ
  pub evidence_type : EvidenceType
  pub submitted_at : ℕ
  pub evidence_observed_at : ℕ
  pub content_sha256 : String
  pub metadata : List (String × MetadataValue)

pub record EvidenceRecord (F : Type 0) : Type 0 where
  pub evidence_id : ℕ
  pub hold_id : ℕ
  pub submission : EvidenceSubmission
  pub recency_hours : F
  pub type_match : Bool
  pub created_at : ℕ

pub data VerificationMode : Type 0 where
  mocked signed_provider_attestation unverified : VerificationMode

pub record EvidenceAssessment : Type 0 where
  pub verdict : EvidenceVerdict
  pub expected_type : Option EvidenceType
  pub submitted_type : EvidenceType
  pub subject_match : Bool
  pub time_match : Bool
  pub verification_mode : VerificationMode
  pub content_sha256 : String
  pub verifier_version : String
  pub attestation_key_id : Option String

pub record EvidenceRequirement : Type 0 where
  pub evidence_type : EvidenceType
  pub title : String
  pub description : String

-- `next_step` is a sentence around `submit_by`, which is kept.
pub record MerchantGuidance : Type 0 where
  pub summary : String
  pub reasons : List String
  pub required_evidence : List EvidenceRequirement
  pub submit_by : ℕ
