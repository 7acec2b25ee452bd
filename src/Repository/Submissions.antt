-- ===== src/Repository/Submissions.antt =====
-- Merchants' evidence in `InMemoryHoldRepository` (src/razortrust/repository.py).
use razor_trust.Common.{
  ℕ, ◌-◌, String, Bool, true, false, not, ◌||◌, Option, none, some, ◌==◌, str_eq, if◌then◌else◌,
}
use razor_trust.Common.Dict.{lookup, insert}
use razor_trust.Common.Exec.{
  Exec, pure, gets, or_raise, modify, raise_if, ◌>>=◌, ◌>>◌, hold_not_found, invalid_transition,
  key_error,
}
use razor_trust.Common.Platform.{Platform}
use razor_trust.Domain.{
  awaiting_evidence, evidence_submitted, EvidenceType, campaign, fulfillment, geo_expansion,
  auth_incident, inventory, state_eq, evidence_type_eq, HoldCase, EvidenceSubmission,
  EvidenceRecord,
}
use razor_trust.Repository.State.{Repository}

-- The `mapping` of `expected_evidence_type`, at a reason code in capitals.
unfoldable pub evidence_type_of : String → Option EvidenceType
evidence_type_of s =
    if str_eq s "CAMPAIGN"
    then some campaign
    else if str_eq s "VOLUME_SPIKE"
    then some campaign
    else if str_eq s "FULFILLMENT"
    then some fulfillment
    else if str_eq s "GEO_EXPANSION"
    then some geo_expansion
    else if str_eq s "AUTH_INCIDENT"
    then some auth_incident
    else if str_eq s "INVENTORY"
    then some inventory
    else none

unfoldable pub expected_evidence_type : (p : Platform) → Option String → Option EvidenceType
expected_evidence_type p none = none
expected_evidence_type p (some reason_code) = evidence_type_of (p.upper reason_code)

-- `expected is None or submitted == expected`
abbrev pub type_matches : Option EvidenceType → EvidenceType → Bool
type_matches none submitted = true
type_matches (some expected) submitted = evidence_type_eq submitted expected

module _ {F : Type 0} where
  unfoldable pub get_evidence : ℕ → Exec (Repository F) (EvidenceRecord F)
  get_evidence hold_id = do or_raise (lookup hold_id (← gets (λ s. s.evidence))) invalid_transition

module _ (p : Platform) where
  open p use {Float, total_seconds, lit, div}

  -- `(submitted - observed).total_seconds() / 3600`; the submission's validator has checked that the
  -- observation comes first, so the difference is not negative.
  abbrev pub recency : EvidenceSubmission → Float
  recency s = div (total_seconds (s.submitted_at - s.evidence_observed_at)) (lit 3600 0)

  abbrev pub evidence_record :
      HoldCase → EvidenceSubmission → (hold_id fresh now : ℕ) → EvidenceRecord Float
  evidence_record hold submission hold_id fresh now = record {
    evidence_id = fresh;
    hold_id = hold_id;
    submission = submission;
    recency_hours = recency submission;
    type_match = type_matches (expected_evidence_type p hold.reason_code) submission.evidence_type;
    created_at = now;
  }

  abbrev submit_again : ℕ → ℕ → Exec (Repository Float) (EvidenceRecord Float × Bool)
  submit_again hold_id existing = do
    raise_if (not (existing == hold_id)) invalid_transition
    e ← or_raise (lookup hold_id (← gets (λ s. s.evidence))) key_error
    pure (e, false)

  abbrev pub submitted_case : ℕ → HoldCase → HoldCase
  submitted_case now hold = record hold {
    evidence_round = 1;
    state = evidence_submitted;
    updated_at = now;
  }

  abbrev pub submitted : EvidenceRecord Float → HoldCase → Repository Float → Repository Float
  submitted e hold s = record s {
    cases = insert e.hold_id hold s.cases;
    evidence = insert e.hold_id e s.evidence;
    evidence_request_index = insert e.submission.request_id e.hold_id s.evidence_request_index;
  }

  submit_new :
      ℕ
      → EvidenceSubmission
      → (fresh now now' : ℕ) → Exec (Repository Float) (EvidenceRecord Float × Bool)
  submit_new hold_id submission fresh now now' = do
    hold ← or_raise (lookup hold_id (← gets (λ s. s.cases))) hold_not_found
    raise_if (not (state_eq hold.state awaiting_evidence) || not (hold.evidence_round == 0))
        invalid_transition
    let e = evidence_record hold submission hold_id fresh now
    modify (submitted e (submitted_case now' hold))
    pure (e, true)

  submit_branch :
      ℕ
      → EvidenceSubmission
      → (fresh now now' : ℕ) → Option ℕ
      → Exec (Repository Float) (EvidenceRecord Float × Bool)
  unfolding submit_new
  submit_branch hold_id submission fresh now now' (some id) = submit_again hold_id id
  submit_branch hold_id submission fresh now now' none =
      submit_new hold_id submission fresh now now'

  unfoldable pub submit_evidence :
      ℕ
      → EvidenceSubmission
      → (fresh now now' : ℕ) → Exec (Repository Float) (EvidenceRecord Float × Bool)
  unfolding submit_branch
  submit_evidence hold_id submission fresh now now' = do
    existing ← gets λ s. lookup submission.request_id s.evidence_request_index
    submit_branch hold_id submission fresh now now' existing
