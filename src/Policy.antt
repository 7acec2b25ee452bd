-- ===== src/Policy.antt =====
-- The hold guardrails of src/razortrust/policy.py (`LocalHoldPolicy`, the mirror of the Rego policy),
-- and the answer of the OPA client, whose transport is a parameter.
pub mod Guardrails
use razor_trust.Common.{
  ℕ, zero, suc, ◌+◌, ◌-◌, ◌*◌, ◌/◌, ◌%◌, ◌≤◌, ◌<◌, String, ◌≡◌, refl, sym, ap, ◌∙◌, ◌≢◌, ◌↔◌, ◌⊎◌,
  inl, inr, Bool, true, false, not, ◌&&◌, ◌||◌, Option, none, some, List, [], ◌∷◌, ◌++◌, map, arith,
  str_eq, eq_iff, ltb, leb, ◌==◌, if◌then◌else◌, is_some, ==_iff, ==_refl, Bool-cases, Option-cases,
  length, take, replicate, last, length-append, All, All-append, All_mono,
}
use razor_trust.Common.Exec.{
  Exception, Result, ok, err, and_then, Exec, pure, raise, lift, gets, or_raise, modify, raise_if,
  ◌>>=◌, ◌>>◌, Result-cases, hold_not_found, invalid_transition, key_error, arithmetic_error,
  runtime_error, value_error, audit_format_error, policy_unavailable, authorization_unavailable,
  assertion_error, index_error,
}
use razor_trust.Common.Dict.{Dict, lookup, insert, lookup-insert, lookup-empty}
use razor_trust.Common.Platform.{Platform, IsTotal}
use razor_trust.Domain.{
  is_supported, EvidenceAssessment, PolicyCheck, PolicyResult, HoldDecision, release,
  evidence_needed, HoldState, opened, awaiting_evidence, evidence_submitted, resolved, human_review,
  denied,
}

abbrev local_version : String
local_version = "hold-policy-local@1"

-- `self._escalate(reason)`
abbrev pub escalated : String → PolicyResult
escalated reason = record {
  allowed_decision = HoldDecision.escalate;
  guardrail_triggered = true;
  reasons = reason ∷ [];
  policy_version = local_version;
}

-- A candidate that stands, for the given reason.
abbrev pub allowed : HoldDecision → String → PolicyResult
allowed decision reason = record {
  allowed_decision = decision;
  guardrail_triggered = false;
  reasons = reason ∷ [];
  policy_version = local_version;
}

module _ (p : Platform) where
  open p use {Float, lt, le}

  -- The tests on a release after an evidence round; `none` lets it pass.
  abbrev release_after_evidence : PolicyCheck Float → Option EvidenceAssessment → Option String
  release_after_evidence r none = some "EVIDENCE_ASSESSMENT_MISSING"
  release_after_evidence r (some a) =
      if not (is_supported a.verdict)
      then some "EVIDENCE_NOT_SUPPORTED"
      else if le r.evidence_release_risk_cap r.probabilities.escalate
      then some "EVIDENCE_RELEASE_RISK_CAP_EXCEEDED"
      else none

  abbrev release_refusal : PolicyCheck Float → Option String
  release_refusal r =
      if r.evidence_round == 0 && lt r.probabilities.release r.thresholds.release
      then some "RELEASE_THRESHOLD_NOT_MET"
      else if r.evidence_round == 1
      then release_after_evidence r r.evidence_assessment
      else none

  abbrev settle_release : Option String → PolicyResult
  settle_release none = allowed release "RELEASE_GUARDRAILS_PASSED"
  settle_release (some reason) = escalated reason

  check_candidate : PolicyCheck Float → HoldDecision → PolicyResult
  check_candidate r release = settle_release (release_refusal r)
  check_candidate r evidence_needed =
      if r.evidence_round == 0
      then allowed evidence_needed "ONE_EVIDENCE_ROUND_AVAILABLE"
      else escalated "EVIDENCE_ROUND_EXHAUSTED"
  check_candidate r HoldDecision.escalate = allowed HoldDecision.escalate "CANDIDATE_ESCALATE"

  -- `LocalHoldPolicy.check`
  unfoldable pub check : PolicyCheck Float → PolicyResult
  unfolding check_candidate
  check r =
      if r.system_error
      then escalated "SYSTEM_ERROR"
      else if r.novelty_override
      then escalated "NOVELTY_OVERRIDE"
      else if ltb 1 r.evidence_round
      then escalated "INVALID_EVIDENCE_ROUND"
      else check_candidate r r.candidate_decision

-- What comes back from OPA: a transport error or a bad body, a body whose `result` is no object, an
-- object that is no `PolicyResult`, or one that is.
pub data OpaReply : Type 0 where
  http_or_body_error no_object invalid_result : OpaReply
  decided : PolicyResult → OpaReply

-- `OpaHoldPolicy.check`, after the request: every failure is `PolicyUnavailable`.
unfoldable pub opa_check : OpaReply → Result PolicyResult
opa_check (decided r) = ok r
opa_check _ = err policy_unavailable
