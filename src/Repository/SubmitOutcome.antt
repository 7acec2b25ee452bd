-- ===== src/Repository/SubmitOutcome.antt =====
-- How `submit_evidence` can end.
use razor_trust.Common.{
  ℕ, ◌≡◌, Bool, true, false, not, ◌||◌, none, some, ◌==◌, Option-cases, Bool-cases, inl, inr,
  ==_iff, ==_refl,
}
use razor_trust.Common.Dict.{lookup}
use razor_trust.Common.Exec.{
  Exception, Result, ok, err, hold_not_found, invalid_transition, key_error,
}
use razor_trust.Common.Platform.{Platform}
use razor_trust.Domain.{awaiting_evidence, state_eq, HoldCase, EvidenceSubmission, EvidenceRecord}
use razor_trust.Repository.State.{Repository}
use razor_trust.Repository.Submissions.{evidence_record, submitted_case, submitted, submit_evidence}

module _ (p : Platform) where
  open p use {Float}

  pub data SubmitOutcome (k : ℕ) (x : EvidenceSubmission) (fresh now now' : ℕ)
      (s : Repository Float) (res : Result (EvidenceRecord Float × Bool) × Repository Float)
      : Type 0 where
    refused : (e : Exception) → res ≡ (err e, s) → SubmitOutcome k x fresh now now' s res
    other_hold :
        (id : ℕ)
        → lookup x.request_id s.evidence_request_index ≡ some id
        → (id == k) ≡ false
        → res ≡ (err invalid_transition, s)
        → SubmitOutcome k x fresh now now' s res
    repeated :
        (e : EvidenceRecord Float)
        → lookup x.request_id s.evidence_request_index ≡ some k
        → lookup k s.evidence ≡ some e
        → res ≡ (ok (e, false), s)
        → SubmitOutcome k x fresh now now' s res
    accepted :
        (old : HoldCase)
        → lookup x.request_id s.evidence_request_index ≡ none
        → lookup k s.cases ≡ some old
        → (not (state_eq old.state awaiting_evidence) || not (old.evidence_round == 0)) ≡ false
        → res ≡ (
          ok (evidence_record p old x k fresh now, true),
          submitted p (evidence_record p old x k fresh now) (submitted_case p now' old) s,
        )
        → SubmitOutcome k x fresh now now' s res

  submit_same :
      (k : ℕ) (x : EvidenceSubmission) (fresh now now' : ℕ) (s : Repository Float)
      → lookup x.request_id s.evidence_request_index ≡ some k
      → SubmitOutcome k x fresh now now' s (submit_evidence p k x fresh now now' s)
  unfolding submit_evidence
  submit_same k x fresh now now' s seen = elim (Option-cases (lookup k s.evidence)) [
    | inl lost ↦ refused key_error (rw seen (rw (==_refl k) (rw lost)))
    | inr (e, found) ↦ repeated e seen found (rw seen (rw (==_refl k) (rw found)))
  ]

  pub submit_outcome :
      (k : ℕ) (x : EvidenceSubmission) (fresh now now' : ℕ) (s : Repository Float)
      → SubmitOutcome k x fresh now now' s (submit_evidence p k x fresh now now' s)
  unfolding submit_evidence
  submit_outcome k x fresh now now' s =
      elim (Option-cases (lookup x.request_id s.evidence_request_index)) [
        | inl new ↦ elim (Option-cases (lookup k s.cases)) [
          | inl lost ↦ refused hold_not_found (rw new (rw lost))
          | inr (old, e) ↦
              elim (Bool-cases
                (not (state_eq old.state awaiting_evidence) || not (old.evidence_round == 0))) [
                  | inl bad ↦ refused invalid_transition (rw new (rw e (rw bad)))
                  | inr fine ↦ accepted old new e fine (rw new (rw e (rw fine)))
                ]
        ]
        | inr (id, seen) ↦ elim (Bool-cases (id == k)) [
          | inl same ↦ submit_same k x fresh now now' s (rw (← (==_iff id k).0 same) seen)
          | inr differs ↦ other_hold id seen differs (rw seen (rw differs))
        ]
      ]
