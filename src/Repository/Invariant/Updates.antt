-- ===== src/Repository/Invariant/Updates.antt =====
-- Each update of the dictionaries keeps the invariant, under what its method has checked.
use razor_trust.Common.{
  ℕ, ◌≡◌, true, false, ◌&&◌, some, none, ◌==◌, arith, refl, List, [], ◌∷◌, ◌++◌, length,
  length-append, All-append, All_mono, Bool-cases, inl, inr, Option, ==_iff, All, ◌<◌,
}
use mathlib.Core.Path.{subst}
use razor_trust.Common.Dict.{lookup, insert, lookup-insert}
use razor_trust.Domain.{
  opened, awaiting_evidence, evidence_submitted, evidence_needed, decision_eq, HoldCase,
  EvidenceRecord, AnalystReviewRecord, DecisionResponse, HoldDecision, AnalystReviewSubmission,
  FeatureVector, HoldEvaluationInput,
}
use razor_trust.Repository.State.{Repository}
use razor_trust.Repository.Cases.{created, decided, decided_case}
use razor_trust.Repository.Reviews.{review_list, reviewed, reviewed_case, is_reviewable, is_refused}
use razor_trust.Repository.Invariant.{IsValid, Filed}

module _ {F : Type 0} (s : Repository F) (v : IsValid s) where
  -- A new hold, at an identifier that no hold has.
  pub created-IsValid :
      (h : HoldCase)
      → lookup h.hold_id s.cases ≡ none
      → h.state ≡ opened
      → h.evidence_round ≡ 0
      → IsValid (created h s)
  created-IsValid new unused is_open first = record {
    holds = λ k h e. ground (
      arith,
      lookup-insert new.hold_id k new s.cases,
      v.holds k h,
      v.decisions_known k,
      v.evidence_known k,
    );
    requests = λ r id e. ground (
      arith,
      lookup-insert new.hold_id id new s.cases,
      lookup-insert new.request_id r new.hold_id s.request_index,
      v.requests r id,
    );
    decisions_known =
        λ k e. ground (arith, lookup-insert new.hold_id k new s.cases, v.decisions_known k);
    evidence_known =
        λ k e. ground (arith, lookup-insert new.hold_id k new s.cases, v.evidence_known k);
    evidence_requests = v.evidence_requests;
    review_holds = v.review_holds;
    review_requests = v.review_requests;
    filed = v.filed;
  }

  pub decided-IsValid :
      (d : DecisionResponse F) (now : ℕ) (old : HoldCase)
      → lookup d.hold_id s.cases ≡ some old
      → (decision_eq d.decision evidence_needed && old.evidence_round == 1) ≡ false
      → IsValid (decided d (decided_case d now old) s)
  decided-IsValid d now old e fine =
      let new = decided_case d now old in
      record {
        holds = λ k h x. ground (
          arith,
          lookup-insert d.hold_id k new s.cases,
          lookup-insert d.hold_id k d s.decisions,
          v.holds k h,
          v.holds d.hold_id old e,
        );
        requests =
            λ r id x. ground (arith, lookup-insert d.hold_id id new s.cases, v.requests r id);
        decisions_known = λ k x. ground (
          arith,
          lookup-insert d.hold_id k new s.cases,
          lookup-insert d.hold_id k d s.decisions,
          v.decisions_known k,
        );
        evidence_known =
            λ k x. ground (arith, lookup-insert d.hold_id k new s.cases, v.evidence_known k);
        evidence_requests = v.evidence_requests;
        review_holds = v.review_holds;
        review_requests = v.review_requests;
        filed = v.filed;
      }

  -- A review that is recorded under a new request joins the list of its hold.
  module _ (r : AnalystReviewRecord F) (new : HoldCase)
      (fresh : lookup r.submission.request_id s.review_request_index ≡ none) where
    Filed-reviewed :
        (k : ℕ) (x : AnalystReviewRecord F) → Filed s k x → Filed (reviewed r new s) k x
    Filed-reviewed k x f = ground (
      arith,
      lookup-insert r.submission.request_id x.submission.request_id r.hold_id
          s.review_request_index,
    )

    Filed-self : Filed (reviewed r new s) r.hold_id r
    Filed-self = ground (
      arith,
      lookup-insert r.submission.request_id r.submission.request_id r.hold_id
          s.review_request_index,
    )

    Filed-list :
        (rs : List (AnalystReviewRecord F))
        → All (Filed s r.hold_id) rs
        → (All (Filed (reviewed r new s) r.hold_id) (rs ++ r ∷ [])) × (0 < length (rs ++ r ∷ []))
    Filed-list rs h = (
      All-append (Filed (reviewed r new s) r.hold_id) rs (r ∷ [])
          (All_mono (Filed s r.hold_id) (Filed (reviewed r new s) r.hold_id) rs
            (Filed-reviewed r.hold_id) h)
          (Filed-self, tt),
      omega (arith, length-append rs (r ∷ [])),
    )

    filed-before :
        (o : Option (List (AnalystReviewRecord F)))
        → lookup r.hold_id s.reviews ≡ o
        → All (Filed s r.hold_id) (review_list o)
    filed-before none e = tt
    filed-before (some rs) e = (v.filed r.hold_id rs e).0

    abbrev after : List (AnalystReviewRecord F)
    after = review_list (lookup r.hold_id s.reviews) ++ r ∷ []

    filed-own :
        (rs : List (AnalystReviewRecord F))
        → some after ≡ some rs
        → (All (Filed (reviewed r new s) r.hold_id) rs) × (0 < length rs)
    filed-own rs e =
        let same : after ≡ rs = cc in
        subst (λ xs. (All (Filed (reviewed r new s) r.hold_id) xs) × (0 < length xs)) same
          (Filed-list (review_list (lookup r.hold_id s.reviews))
            (filed-before (lookup r.hold_id s.reviews) refl))

    filed-reviewed :
        (k : ℕ) (rs : List (AnalystReviewRecord F))
        → lookup k (reviewed r new s).reviews ≡ some rs
        → (All (Filed (reviewed r new s) k) rs) × (0 < length rs)
    filed-reviewed k rs e = elim (Bool-cases (r.hold_id == k)) [
      | inl same ↦
          rw (← (==_iff r.hold_id k).0 same)
            (filed-own rs (ground (arith, lookup-insert r.hold_id k after s.reviews)))
      | inr other ↦
          let h = v.filed k rs (ground (arith, lookup-insert r.hold_id k after s.reviews)) in
          (All_mono (Filed s k) (Filed (reviewed r new s) k) rs (Filed-reviewed k) h.0, h.1)
    ]

  pub reviewed-IsValid :
      (r : AnalystReviewRecord F) (d : HoldDecision) (x : AnalystReviewSubmission F) (now : ℕ)
      (old : HoldCase) (ai : DecisionResponse F)
      → lookup r.submission.request_id s.review_request_index ≡ none
      → lookup r.hold_id s.cases ≡ some old
      → lookup r.hold_id s.decisions ≡ some ai
      → is_reviewable old.state ≡ true
      → is_refused x d ai.decision old ≡ false
      → IsValid (reviewed r (reviewed_case d x now old) s)
  reviewed-IsValid r d x now old ai fresh e eai ready fine =
      let new = reviewed_case d x now old in
      record {
        holds = λ k h y.
            ground
              (arith, lookup-insert r.hold_id k new s.cases, v.holds k h, v.holds r.hold_id old e);
        requests =
            λ q id y. ground (arith, lookup-insert r.hold_id id new s.cases, v.requests q id);
        decisions_known =
            λ k y. ground (arith, lookup-insert r.hold_id k new s.cases, v.decisions_known k);
        evidence_known =
            λ k y. ground (arith, lookup-insert r.hold_id k new s.cases, v.evidence_known k);
        evidence_requests = v.evidence_requests;
        review_holds = λ q id y. ground (
          arith,
          lookup-insert r.submission.request_id q r.hold_id s.review_request_index,
          lookup-insert r.submission.request_id q r s.reviews_by_request,
          v.review_holds q id,
        );
        review_requests = λ q id y. ground (
          arith,
          lookup-insert r.submission.request_id q r.hold_id s.review_request_index,
          lookup-insert r.submission.request_id q r s.reviews_by_request,
          v.review_requests q id,
        );
        filed = filed-reviewed r new fresh;
      }

  pub submitted-IsValid :
      (x : EvidenceRecord F) (old new : HoldCase)
      → lookup x.hold_id s.cases ≡ some old
      → old.state ≡ awaiting_evidence
      → new.hold_id ≡ old.hold_id
      → new.request_id ≡ old.request_id
      → new.state ≡ evidence_submitted
      → new.evidence_round ≡ 1
      → IsValid (record s {
        cases = insert x.hold_id new s.cases;
        evidence = insert x.hold_id x s.evidence;
        evidence_request_index = insert x.submission.request_id x.hold_id s.evidence_request_index;
      })
  submitted-IsValid x old new e await same same_request sub second = record {
    holds = λ k h y. ground (
      arith,
      lookup-insert x.hold_id k new s.cases,
      lookup-insert x.hold_id k x s.evidence,
      v.holds k h,
      v.holds x.hold_id old e,
    );
    requests = λ q id y. ground (arith, lookup-insert x.hold_id id new s.cases, v.requests q id);
    decisions_known =
        λ k y. ground (arith, lookup-insert x.hold_id k new s.cases, v.decisions_known k);
    evidence_known = λ k y. ground (
      arith,
      lookup-insert x.hold_id k new s.cases,
      lookup-insert x.hold_id k x s.evidence,
      v.evidence_known k,
    );
    evidence_requests = λ q id y. ground (
      arith,
      lookup-insert x.submission.request_id q x.hold_id s.evidence_request_index,
      lookup-insert x.hold_id id x s.evidence,
      v.evidence_requests q id,
      v.holds x.hold_id old e,
    );
    review_holds = v.review_holds;
    review_requests = v.review_requests;
    filed = v.filed;
  }

  pub snapshot-IsValid :
      (k : ℕ) (i : HoldEvaluationInput F) (f : FeatureVector F)
      → IsValid (record s {
        evaluation_inputs = insert k i s.evaluation_inputs;
        features = insert k f s.features;
      })
  snapshot-IsValid j i f = record {
    holds = λ k h y. ground (arith, v.holds k h);
    requests = v.requests;
    decisions_known = v.decisions_known;
    evidence_known = v.evidence_known;
    evidence_requests = v.evidence_requests;
    review_holds = v.review_holds;
    review_requests = v.review_requests;
    filed = v.filed;
  }
