-- ===== src/Policy/Guardrails.antt =====
-- What the local guardrails let through.
use razor_trust.Policy.{check}
use razor_trust.Common.{◌≡◌, ◌↔◌, ◌⊎◌, true, false, some, arith}
use razor_trust.Common.Platform.{Platform}
use razor_trust.Domain.{
  supported, EvidenceAssessment, PolicyCheck, HoldDecision, release, evidence_needed,
}

module _ (p : Platform) where
  open p use {Float, lt, le}

  -- The conditions under which a release may stand.
  abbrev pub MayRelease : PolicyCheck Float → Type 0
  MayRelease r =
      (r.candidate_decision ≡ release)
      × (r.system_error ≡ false)
      × (r.novelty_override ≡ false)
      × (((r.evidence_round ≡ 0) × (lt r.probabilities.release r.thresholds.release ≡ false))
          ⊎ ((r.evidence_round ≡ 1)
              × ((a : EvidenceAssessment) × (r.evidence_assessment ≡ some a)
                  × (a.verdict ≡ supported)
                  × (le r.evidence_release_risk_cap r.probabilities.escalate ≡ false))))

  -- The local policy allows RELEASE exactly when the candidate is RELEASE, nothing failed, no novelty
  -- override is set, and either the release threshold is met before any evidence round, or, in the
  -- evidence round, the evidence is supported and the escalation risk stays below the cap.
  pub check-release_iff :
      (r : PolicyCheck Float) → ((check p r).allowed_decision ≡ release) ↔ MayRelease r
  unfolding check
  check-release_iff r = ground arith

  -- The policy never strengthens a decision: its answer is the candidate, with no guardrail reported,
  -- or ESCALATE. A guardrail is reported only with ESCALATE.
  pub check_conservative :
      (r : PolicyCheck Float)
      → (((check p r).guardrail_triggered ≡ false)
          × ((check p r).allowed_decision ≡ r.candidate_decision))
        ⊎ (((check p r).guardrail_triggered ≡ true)
            × ((check p r).allowed_decision ≡ HoldDecision.escalate))
  unfolding check
  check_conservative r = ground arith

  -- EVIDENCE_NEEDED stands only in round 0, and only if it was the candidate, with no error and no
  -- novelty override.
  pub check-evidence_needed_iff :
      (r : PolicyCheck Float)
      → ((check p r).allowed_decision ≡ evidence_needed) ↔ (
          (r.candidate_decision ≡ evidence_needed)
          × (r.evidence_round ≡ 0)
          × (r.system_error ≡ false)
          × (r.novelty_override ≡ false))
  unfolding check
  check-evidence_needed_iff r = ground arith
