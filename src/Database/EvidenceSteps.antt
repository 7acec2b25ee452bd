-- ===== src/Database/EvidenceSteps.antt =====
-- Evidence leaves the audit trail as it is.
use razor_trust.Database.Chain.{kept}
use razor_trust.Database.Evidence.{
  find_submission, evidence_conflicts, known_submission, resubmitted, commit_evidence, submit_row,
  submit_evidence,
}
use razor_trust.Database.Steps.{Steps-pure, guards, Steps}
use razor_trust.Database.Tables.{Database, SqlHashing}
use razor_trust.Common.{ℕ, refl, inl, inr, Option, none, some, Bool-cases}
use razor_trust.Common.Platform.{Platform}
use razor_trust.Domain.{HoldCase, EvidenceRecord, EvidenceSubmission}

module _ (p : Platform) {X : Type 0} (h : SqlHashing p.Float X) (s : Database p.Float X) where
  known_submission-Steps :
      (id : ℕ) (e : EvidenceRecord p.Float) → Steps h s (known_submission p id e)
  known_submission-Steps id e = search (guards, Steps-pure)

  resubmitted-Steps :
      (id : ℕ) (o : Option (EvidenceRecord p.Float)) → Steps h s (resubmitted p id o)
  unfolding Steps
  resubmitted-Steps id none = kept refl refl
  resubmitted-Steps id (some e) = known_submission-Steps id e

  commit_evidence-Steps :
      (hold : HoldCase) (e : EvidenceRecord p.Float) → Steps h s (commit_evidence p hold e)
  unfolding Steps
  commit_evidence-Steps hold e = elim (Bool-cases (evidence_conflicts p e s)) [
    | inl b ↦ rw b (resubmitted-Steps e.hold_id (find_submission p e.submission.request_id s))
    | inr b ↦ rw b (kept refl refl)
  ]

  submit_row-Steps :
      (id : ℕ) (x : EvidenceSubmission) (fresh now now' : ℕ) (o : Option (EvidenceRecord p.Float))
      → Steps h s (submit_row p id x fresh now now' o)
  submit_row-Steps id x fresh now now' (some existing) = known_submission-Steps id existing
  submit_row-Steps id x fresh now now' none = search (guards, commit_evidence-Steps) depth 8

  pub submit_evidence-Steps :
      (id : ℕ) (x : EvidenceSubmission) (fresh now now' : ℕ)
      → Steps h s (submit_evidence p id x fresh now now')
  unfolding submit_evidence
  submit_evidence-Steps id x fresh now now' = search (guards, submit_row-Steps) depth 8
