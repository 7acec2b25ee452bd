-- ===== src/Repository/ReviewOutcome.antt =====
-- How `record_analyst_review` can end.
use razor_trust.Common.{
  ℕ, String, ◌≡◌, Bool, true, false, none, some, ◌==◌, Option-cases, Bool-cases, inl, inr, ==_iff,
  ==_refl,
}
use razor_trust.Common.Dict.{lookup}
use razor_trust.Common.Exec.{
  Exception, Result, ok, err, hold_not_found, invalid_transition, key_error, Result-cases,
}
use razor_trust.Domain.{
  HoldDecision, HumanReviewAction, TrainingLabel, HoldCase, AnalystReviewSubmission,
  AnalystReviewRecord, DecisionResponse, resolved_action, resolved_decision,
}
use razor_trust.Repository.State.{Repository}
use razor_trust.Repository.Reviews.{
  training_label, is_reviewable, is_refused, review_record, reviewed_case, reviewed,
  record_analyst_review,
}

module _ {F : Type 0} where
  pub data ReviewOutcome (k : ℕ) (x : AnalystReviewSubmission F) (analyst : String)
      (fresh now now' : ℕ) (s : Repository F)
      (res : Result (AnalystReviewRecord F × Bool) × Repository F) : Type 0 where
    refused : (e : Exception) → res ≡ (err e, s) → ReviewOutcome k x analyst fresh now now' s res
    repeated :
        (r : AnalystReviewRecord F)
        → lookup x.request_id s.review_request_index ≡ some k
        → lookup x.request_id s.reviews_by_request ≡ some r
        → res ≡ (ok (r, false), s)
        → ReviewOutcome k x analyst fresh now now' s res
    recorded :
        (old : HoldCase) (d : HoldDecision) (ai : DecisionResponse F) (label : TrainingLabel)
        → lookup x.request_id s.review_request_index ≡ none
        → lookup k s.cases ≡ some old
        → is_reviewable old.state ≡ true
        → resolved_decision x ≡ ok d
        → lookup k s.decisions ≡ some ai
        → is_refused x d ai.decision old ≡ false
        → training_label x ≡ ok label
        → res ≡ (
          ok (review_record k x analyst label fresh now, true),
          reviewed (review_record k x analyst label fresh now) (reviewed_case d x now' old) s,
        )
        → ReviewOutcome k x analyst fresh now now' s res

  review_same :
      (k : ℕ) (x : AnalystReviewSubmission F) (analyst : String) (fresh now now' : ℕ)
      (s : Repository F)
      → lookup x.request_id s.review_request_index ≡ some k
      → ReviewOutcome k x analyst fresh now now' s
          (record_analyst_review k x analyst fresh now now' s)
  unfolding record_analyst_review
  review_same k x analyst fresh now now' s seen =
      elim (Option-cases (lookup x.request_id s.reviews_by_request)) [
        | inl lost ↦ refused key_error (rw seen (rw (==_refl k) (rw lost)))
        | inr (r, found) ↦ repeated r seen found (rw seen (rw (==_refl k) (rw found)))
      ]

  module _ (k : ℕ) (x : AnalystReviewSubmission F) (analyst : String) (fresh now now' : ℕ)
      (s : Repository F) (old : HoldCase) (new : lookup x.request_id s.review_request_index ≡ none)
      (e : lookup k s.cases ≡ some old) (ready : is_reviewable old.state ≡ true) where
    review_checked :
        (a : HumanReviewAction) (d : HoldDecision) (ai : DecisionResponse F)
        → resolved_action x ≡ ok a
        → resolved_decision x ≡ ok d
        → lookup k s.decisions ≡ some ai
        → ReviewOutcome k x analyst fresh now now' s
            (record_analyst_review k x analyst fresh now now' s)
    unfolding record_analyst_review
    review_checked a d ai ea ed eai = elim (Bool-cases (is_refused x d ai.decision old)) [
      | inl bad ↦
          refused invalid_transition (rw new (rw e (rw ready (rw ea (rw ed (rw eai (rw bad)))))))
      | inr fine ↦ elim (Result-cases (training_label x)) [
        | inl (label, el) ↦
            recorded old d ai label new e ready ed eai fine el
              (rw new (rw e (rw ready (rw ea (rw ed (rw eai (rw fine (rw el))))))))
        | inr (bug, el) ↦
            refused bug (rw new (rw e (rw ready (rw ea (rw ed (rw eai (rw fine (rw el))))))))
      ]
    ]

    review_new :
        ReviewOutcome k x analyst fresh now now' s
          (record_analyst_review k x analyst fresh now now' s)
    unfolding record_analyst_review
    review_new = elim (Result-cases (resolved_action x)) [
      | inr (bug, ea) ↦ refused bug (rw new (rw e (rw ready (rw ea))))
      | inl (a, ea) ↦ elim (Result-cases (resolved_decision x)) [
        | inr (bug, ed) ↦ refused bug (rw new (rw e (rw ready (rw ea (rw ed)))))
        | inl (d, ed) ↦ elim (Option-cases (lookup k s.decisions)) [
          | inl lost ↦ refused key_error (rw new (rw e (rw ready (rw ea (rw ed (rw lost))))))
          | inr (ai, eai) ↦ review_checked a d ai ea ed eai
        ]
      ]
    ]

  pub review_outcome :
      (k : ℕ) (x : AnalystReviewSubmission F) (analyst : String) (fresh now now' : ℕ)
      (s : Repository F)
      → ReviewOutcome k x analyst fresh now now' s
          (record_analyst_review k x analyst fresh now now' s)
  unfolding record_analyst_review
  review_outcome k x analyst fresh now now' s =
      elim (Option-cases (lookup x.request_id s.review_request_index)) [
        | inl new ↦ elim (Option-cases (lookup k s.cases)) [
          | inl lost ↦ refused hold_not_found (rw new (rw lost))
          | inr (old, e) ↦ elim (Bool-cases (is_reviewable old.state)) [
            | inl ready ↦ review_new k x analyst fresh now now' s old new e ready
            | inr closed ↦ refused invalid_transition (rw new (rw e (rw closed)))
          ]
        ]
        | inr (id, seen) ↦ elim (Bool-cases (id == k)) [
          | inl same ↦ review_same k x analyst fresh now now' s (rw (← (==_iff id k).0 same) seen)
          | inr differs ↦ refused invalid_transition (rw seen (rw differs))
        ]
      ]
