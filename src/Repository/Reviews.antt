-- ===== src/Repository/Reviews.antt =====
-- Human reviews in `InMemoryHoldRepository` (src/razortrust/repository.py).
use razor_trust.Common.{
  ℕ, String, Bool, true, false, not, ◌&&◌, ◌||◌, Option, none, some, List, [], ◌∷◌, ◌++◌, ◌==◌,
  last, replicate, if◌then◌else◌,
}
use razor_trust.Common.Dict.{lookup, insert}
use razor_trust.Common.Exec.{
  Result, ok, err, Exec, pure, lift, gets, or_raise, modify, raise_if, ◌>>=◌, ◌>>◌, hold_not_found,
  invalid_transition, key_error, index_error,
}
use razor_trust.Domain.{
  HoldDecision, release, evidence_needed, HoldState, awaiting_evidence, resolved, human_review,
  denied, TrainingLabel, legitimate, risky, unresolved, decision_eq, HoldCase,
  AnalystReviewSubmission, AnalystReviewRecord, is_override, is_approval, is_fraud_confirmed,
  resolved_action, resolved_decision,
}
use razor_trust.Repository.State.{Repository}

unfoldable pub training_label : {F : Type 0} → AnalystReviewSubmission F → Result TrainingLabel
training_label s = if is_fraud_confirmed s.outcome then ok risky else elim (resolved_decision s) [
  | ok d ↦ ok (if decision_eq d release then legitimate else unresolved)
  | err x ↦ err x
]

-- `hold.state not in {HUMAN_REVIEW, AWAITING_EVIDENCE}`
abbrev pub is_reviewable : HoldState → Bool
is_reviewable human_review = true
is_reviewable awaiting_evidence = true
is_reviewable _ = false

module _ {F : Type 0} where
  -- `self._reviews.setdefault(hold_id, []).append(record)`
  abbrev pub review_list : Option (List (AnalystReviewRecord F)) → List (AnalystReviewRecord F)
  review_list none = []
  review_list (some rs) = rs

  -- What becomes of the hold: the source's chain on the decision, the action and the outcome.
  abbrev pub reviewed_state : HoldDecision → AnalystReviewSubmission F → HoldState
  reviewed_state d s =
      if decision_eq d release
      then resolved
      else if decision_eq d evidence_needed
      then awaiting_evidence
      else if is_override s.action || is_fraud_confirmed s.outcome
      then denied
      else human_review

  abbrev record_review_again :
      ℕ → AnalystReviewSubmission F → ℕ → Exec (Repository F) (AnalystReviewRecord F × Bool)
  record_review_again hold_id submission existing = do
    raise_if (not (existing == hold_id)) invalid_transition
    r ← or_raise (lookup submission.request_id (← gets (λ s. s.reviews_by_request))) key_error
    pure (r, false)

  abbrev pub review_record :
      ℕ
      → AnalystReviewSubmission F
      → String
      → TrainingLabel
      → (fresh now : ℕ) → AnalystReviewRecord F
  review_record hold_id submission analyst_id label fresh now = record {
    review_id = fresh;
    hold_id = hold_id;
    analyst_id = analyst_id;
    submission = submission;
    training_label = label;
    policy_reference = "human-review@1";
    audit_head_hash = replicate 64 b'0';
    created_at = now;
  }

  abbrev pub reviewed_case : HoldDecision → AnalystReviewSubmission F → ℕ → HoldCase → HoldCase
  reviewed_case decision submission now hold = record hold {
    state = reviewed_state decision submission;
    updated_at = now;
  }

  abbrev pub reviewed : AnalystReviewRecord F → HoldCase → Repository F → Repository F
  reviewed r hold s = record s {
    cases = insert r.hold_id hold s.cases;
    reviews = insert r.hold_id (review_list (lookup r.hold_id s.reviews) ++ r ∷ []) s.reviews;
    reviews_by_request = insert r.submission.request_id r s.reviews_by_request;
    review_request_index = insert r.submission.request_id r.hold_id s.review_request_index;
  }

  -- The guards on a human action: nobody approves or repeats against the AI's recommendation, and
  -- evidence is asked for once.
  abbrev pub is_refused : AnalystReviewSubmission F → HoldDecision → HoldDecision → HoldCase → Bool
  is_refused submission decision ai hold =
      (is_approval submission.action && not (decision_eq ai release))
      || (is_override submission.action && decision_eq decision ai)
      || (decision_eq decision evidence_needed && hold.evidence_round == 1)

  record_review_new :
      ℕ
      → AnalystReviewSubmission F
      → String
      → (fresh now now' : ℕ) → Exec (Repository F) (AnalystReviewRecord F × Bool)
  record_review_new hold_id submission analyst_id fresh now now' = do
    hold ← or_raise (lookup hold_id (← gets (λ s. s.cases))) hold_not_found
    raise_if (not (is_reviewable hold.state)) invalid_transition
    action ← lift (resolved_action submission)
    decision ← lift (resolved_decision submission)
    ai ← or_raise (lookup hold_id (← gets (λ s. s.decisions))) key_error
    raise_if (is_refused submission decision ai.decision hold) invalid_transition
    label ← lift (training_label submission)
    let r = review_record hold_id submission analyst_id label fresh now
    modify (reviewed r (reviewed_case decision submission now' hold))
    pure (r, true)

  review_branch :
      ℕ
      → AnalystReviewSubmission F
      → String
      → (fresh now now' : ℕ) → Option ℕ
      → Exec (Repository F) (AnalystReviewRecord F × Bool)
  unfolding record_review_new
  review_branch hold_id submission analyst_id fresh now now' (some id) =
      record_review_again hold_id submission id
  review_branch hold_id submission analyst_id fresh now now' none =
      record_review_new hold_id submission analyst_id fresh now now'

  unfoldable pub record_analyst_review :
      ℕ
      → AnalystReviewSubmission F
      → String
      → (fresh now now' : ℕ) → Exec (Repository F) (AnalystReviewRecord F × Bool)
  unfolding review_branch
  record_analyst_review hold_id submission analyst_id fresh now now' = do
    existing ← gets λ s. lookup submission.request_id s.review_request_index
    review_branch hold_id submission analyst_id fresh now now' existing

  -- `reviews[-1] = review`, on a list that is not empty
  abbrev pub set_last :
      List (AnalystReviewRecord F) → AnalystReviewRecord F → List (AnalystReviewRecord F)
  set_last [] r = []
  set_last (x ∷ []) r = r ∷ []
  set_last (x ∷ y ∷ xs) r = x ∷ set_last (y ∷ xs) r

  -- `self._reviews[hold_id][-1]`; a list in `_reviews` is never empty
  abbrev last_review : Option (List (AnalystReviewRecord F)) → Option (AnalystReviewRecord F)
  last_review none = none
  last_review (some rs) = last rs

  unfoldable pub update_analyst_review_audit_hash :
      ℕ → List ℕ → Exec (Repository F) (AnalystReviewRecord F)
  update_analyst_review_audit_hash hold_id audit_head_hash = do
    rs ← or_raise (lookup hold_id (← gets (λ s. s.reviews))) invalid_transition
    old ← or_raise (last rs) index_error
    let review : AnalystReviewRecord F = record old { audit_head_hash = audit_head_hash }
    modify λ s. record s {
      reviews = insert hold_id (set_last rs review) s.reviews;
      reviews_by_request = insert review.submission.request_id review s.reviews_by_request;
    }
    pure review
