-- ===== src/Database/Evidence.antt =====
-- Evidence in `SqlHoldRepository` (src/razortrust/database.py).
use razor_trust.Repository.Submissions.{evidence_record, submitted_case}
use razor_trust.Database.Queries.{get_hold_row, replace_hold, first_where}
use razor_trust.Database.Tables.{Database}
use razor_trust.Common.{
  ℕ, Bool, true, false, not, ◌||◌, Option, none, some, [], ◌∷◌, ◌++◌, ◌==◌, if◌then◌else◌, is_some,
}
use razor_trust.Common.Exec.{
  ok, Exec, pure, raise, gets, or_raise, raise_if, ◌>>=◌, ◌>>◌, invalid_transition,
}
use razor_trust.Common.Platform.{Platform}
use razor_trust.Domain.{state_eq, EvidenceSubmission, EvidenceRecord, HoldCase, awaiting_evidence}

module _ (p : Platform) {X : Type 0} where
  open p use {Float}

  abbrev pub find_submission : ℕ → Database Float X → Option (EvidenceRecord Float)
  find_submission request_id s =
      first_where (λ e. e.submission.request_id == request_id) s.evidence_submissions

  abbrev pub find_evidence : ℕ → Database Float X → Option (EvidenceRecord Float)
  find_evidence hold_id s = first_where (λ e. e.hold_id == hold_id) s.evidence_submissions

  -- A row for the request that the submission repeats.
  abbrev pub known_submission :
      ℕ → EvidenceRecord Float → Exec (Database Float X) (EvidenceRecord Float × Bool)
  known_submission hold_id existing =
      raise_if (not (existing.hold_id == hold_id)) invalid_transition >> pure (existing, false)

  -- The commit: the request and the hold are unique in `evidence_submissions`.
  abbrev pub evidence_conflicts : EvidenceRecord Float → Database Float X → Bool
  evidence_conflicts e s =
      is_some (find_submission e.submission.request_id s) || is_some (find_evidence e.hold_id s)

  abbrev pub with_evidence : HoldCase → EvidenceRecord Float → Database Float X → Database Float X
  with_evidence hold e s = record s {
    holds = replace_hold hold s.holds;
    evidence_submissions = s.evidence_submissions ++ e ∷ [];
  }

  -- After the `IntegrityError`
  abbrev pub resubmitted :
      ℕ → Option (EvidenceRecord Float) → Exec (Database Float X) (EvidenceRecord Float × Bool)
  resubmitted hold_id none = raise invalid_transition
  resubmitted hold_id (some existing) = known_submission hold_id existing

  abbrev pub commit_evidence :
      HoldCase → EvidenceRecord Float → Exec (Database Float X) (EvidenceRecord Float × Bool)
  commit_evidence hold e s =
      if evidence_conflicts e s
      then resubmitted e.hold_id (find_submission e.submission.request_id s) s
      else (ok (e, true), with_evidence hold e s)

  abbrev pub submit_row :
      ℕ
      → EvidenceSubmission
      → (fresh now now' : ℕ) → Option (EvidenceRecord Float)
      → Exec (Database Float X) (EvidenceRecord Float × Bool)
  submit_row hold_id submission fresh now now' (some existing) = known_submission hold_id existing
  submit_row hold_id submission fresh now now' none = do
    hold ← get_hold_row hold_id
    raise_if (not (state_eq hold.state awaiting_evidence) || not (hold.evidence_round == 0))
        invalid_transition
    commit_evidence (submitted_case p now' hold)
        (evidence_record p hold submission hold_id fresh now)

  unfoldable pub submit_evidence :
      ℕ
      → EvidenceSubmission
      → (fresh now now' : ℕ) → Exec (Database Float X) (EvidenceRecord Float × Bool)
  submit_evidence hold_id submission fresh now now' = do
    existing ← gets (find_submission submission.request_id)
    submit_row hold_id submission fresh now now' existing

  unfoldable pub get_evidence : ℕ → Exec (Database Float X) (EvidenceRecord Float)
  get_evidence hold_id = do or_raise (find_evidence hold_id (← gets (λ s. s))) invalid_transition
