-- ===== src/Repository/Idempotence.antt =====
-- A request that is sent again has no second effect.
use razor_trust.Repository.SubmitOutcome.{SubmitOutcome, submit_outcome}
use razor_trust.Repository.Outcomes.{create_outcome, CreateOutcome}
use razor_trust.Repository.ReviewOutcome.{review_outcome, ReviewOutcome}
use razor_trust.Repository.State.{Repository}
use razor_trust.Repository.Cases.{created, new_case, create}
use razor_trust.Repository.Reviews.{reviewed_case, reviewed, review_record, record_analyst_review}
use razor_trust.Repository.Submissions.{submitted_case, submitted, evidence_record, submit_evidence}
use razor_trust.Common.{
  ℕ, String, ◌≡◌, inl, inr, Bool, false, some, arith, ◌==◌, if◌then◌else◌, ==_iff, Bool-cases,
}
use razor_trust.Common.Exec.{Result, ok, err, invalid_transition}
use razor_trust.Common.Dict.{lookup, lookup-insert}
use razor_trust.Common.Platform.{Platform}
use razor_trust.Domain.{
  AnalystReviewRecord, EvidenceRecord, HoldCase, EvidenceSubmission, AnalystReviewSubmission,
  HoldCreate,
}

module _ {F : Type 0} where
  create_found :
      (r : HoldCreate) (fresh now now' : ℕ) (s : Repository F) (h : HoldCase) (id : ℕ)
      → lookup r.request_id s.request_index ≡ some id
      → lookup id s.cases ≡ some h
      → create r fresh now now' s ≡ (ok (h, false), s)
  unfolding create
  create_found r fresh now now' s h id e l = rw e (rw l)

  create_found_after :
      (r : HoldCreate) (fresh now now' : ℕ) (s s' : Repository F) (h : HoldCase) (new : Bool)
      (res : Result (HoldCase × Bool) × Repository F)
      → CreateOutcome r fresh now now' s res
      → res ≡ (ok (h, new), s')
      → (id : ℕ) × (lookup r.request_id s'.request_index ≡ some id) × (lookup id s'.cases ≡ some h)
  create_found_after r fresh now now' s s' h new res (CreateOutcome.refused x q) z = cc
  create_found_after r fresh now now' s s' h new res (CreateOutcome.existing id g e l q) z =
      (id, ground arith, ground arith)
  create_found_after r fresh now now' s s' h new res (CreateOutcome.fresh_case e q) z =
      let c = new_case r fresh now now' in
      let hs : (c ≡ h) × (created c s ≡ s') = (cc, cc) in
      (
        fresh,
        rw (← hs.1) (ground (arith, lookup-insert r.request_id r.request_id fresh s.request_index)),
        rw (← hs.1) (rw (← hs.0) (ground (arith, lookup-insert fresh fresh c s.cases))),
      )

  -- After a creation that returned the hold `h`, a creation with the same request identifier returns
  -- `h` once more, flagged as not new, and writes nothing, whatever else the request says.
  pub create_again :
      (r again : HoldCreate) (fresh now now' fresh' later later' : ℕ) (s s' : Repository F)
      (h : HoldCase) (new : Bool)
      → again.request_id ≡ r.request_id
      → create r fresh now now' s ≡ (ok (h, new), s')
      → create again fresh' later later' s' ≡ (ok (h, false), s')
  create_again r again fresh now now' fresh' later later' s s' h new same q =
      let (id, e, l) =
        create_found_after r fresh now now' s s' h new _ (create_outcome r fresh now now' s) q in
      create_found again fresh' later later' s' h id (rw same e) l

module _ (p : Platform) where
  open p use {Float}

  submit_found :
      (k : ℕ) (x : EvidenceSubmission) (fresh now now' : ℕ) (s : Repository Float)
      (e : EvidenceRecord Float) (id : ℕ)
      → lookup x.request_id s.evidence_request_index ≡ some id
      → lookup id s.evidence ≡ some e
      → submit_evidence p k x fresh now now' s
        ≡ (if id == k then (ok (e, false), s) else (err invalid_transition, s))
  unfolding submit_evidence
  submit_found k x fresh now now' s e id i l = elim (Bool-cases (id == k)) [
    | inl same ↦
        let found : lookup k s.evidence ≡ some e = rw (← (==_iff id k).0 same) l in
        rw i (rw same (rw found))
    | inr other ↦ rw i (rw other)
  ]

  submit_found_after :
      (k : ℕ) (x : EvidenceSubmission) (fresh now now' : ℕ) (s s' : Repository Float)
      (e : EvidenceRecord Float) (new : Bool)
      (res : Result (EvidenceRecord Float × Bool) × Repository Float)
      → SubmitOutcome p k x fresh now now' s res
      → res ≡ (ok (e, new), s')
      → (lookup x.request_id s'.evidence_request_index ≡ some k) × (lookup k s'.evidence ≡ some e)
  submit_found_after k x fresh now now' s s' e new res (SubmitOutcome.refused y q) z = cc
  submit_found_after k x fresh now now' s s' e new res (SubmitOutcome.other_hold id l ne q) z = cc
  submit_found_after k x fresh now now' s s' e new res (SubmitOutcome.repeated r i l q) z =
      (ground arith, ground arith)
  submit_found_after k x fresh now now' s s' e new res (SubmitOutcome.accepted old m l fine q) z =
      let c = evidence_record p old x k fresh now in
      let hs : (c ≡ e) × (submitted p c (submitted_case p now' old) s ≡ s') = (cc, cc) in
      (
        rw (← hs.1)
            (ground (arith, lookup-insert x.request_id x.request_id k s.evidence_request_index)),
        rw (← hs.1) (rw (← hs.0) (ground (arith, lookup-insert k k c s.evidence))),
      )

  -- After a submission for the hold `k` that returned the evidence `e`, a submission with the same
  -- request identifier writes nothing: for `k` it returns `e` once more, flagged as not new, and for
  -- any other hold it is refused.
  pub submit_again :
      (k j : ℕ) (x again : EvidenceSubmission) (fresh now now' fresh' later later' : ℕ)
      (s s' : Repository Float) (e : EvidenceRecord Float) (new : Bool)
      → again.request_id ≡ x.request_id
      → submit_evidence p k x fresh now now' s ≡ (ok (e, new), s')
      → submit_evidence p j again fresh' later later' s'
        ≡ (if k == j then (ok (e, false), s') else (err invalid_transition, s'))
  submit_again k j x again fresh now now' fresh' later later' s s' e new same q =
      let found =
        submit_found_after k x fresh now now' s s' e new _ (submit_outcome p k x fresh now now' s)
          q in
      submit_found j again fresh' later later' s' e k (rw same found.0) found.1

module _ {F : Type 0} where
  review_found :
      (k : ℕ) (x : AnalystReviewSubmission F) (analyst : String) (fresh now now' : ℕ)
      (s : Repository F) (r : AnalystReviewRecord F) (id : ℕ)
      → lookup x.request_id s.review_request_index ≡ some id
      → lookup x.request_id s.reviews_by_request ≡ some r
      → record_analyst_review k x analyst fresh now now' s
        ≡ (if id == k then (ok (r, false), s) else (err invalid_transition, s))
  unfolding record_analyst_review
  review_found k x analyst fresh now now' s r id i l = elim (Bool-cases (id == k)) [
    | inl same ↦ rw i (rw same (rw l))
    | inr other ↦ rw i (rw other)
  ]

  review_found_after :
      (k : ℕ) (x : AnalystReviewSubmission F) (analyst : String) (fresh now now' : ℕ)
      (s s' : Repository F) (r : AnalystReviewRecord F) (new : Bool)
      (res : Result (AnalystReviewRecord F × Bool) × Repository F)
      → ReviewOutcome k x analyst fresh now now' s res
      → res ≡ (ok (r, new), s')
      → (lookup x.request_id s'.review_request_index ≡ some k)
        × (lookup x.request_id s'.reviews_by_request ≡ some r)
  review_found_after k x analyst fresh now now' s s' r new res (ReviewOutcome.refused y q) z = cc
  review_found_after k x analyst fresh now now' s s' r new res (ReviewOutcome.repeated o i l q) z =
      (ground arith, ground arith)
  review_found_after k x analyst fresh now now' s s' r new res
        (ReviewOutcome.recorded old d ai label n l ready ed lai fine lab q) z =
      let c = review_record k x analyst label fresh now in
      let hs : (c ≡ r) × (reviewed c (reviewed_case d x now' old) s ≡ s') = (cc, cc) in
      (
        rw (← hs.1)
            (ground (arith, lookup-insert x.request_id x.request_id k s.review_request_index)),
        rw (← hs.1) (
            rw (← hs.0)
              (ground (arith, lookup-insert x.request_id x.request_id c s.reviews_by_request))),
      )

  -- After a review of the hold `k` that returned the record `r`, a review with the same request
  -- identifier writes nothing, whoever sends it and whatever it decides: for `k` it returns `r` once
  -- more, flagged as not new, and for any other hold it is refused.
  pub review_again :
      (k j : ℕ) (x again : AnalystReviewSubmission F) (analyst other : String)
      (fresh now now' fresh' later later' : ℕ) (s s' : Repository F) (r : AnalystReviewRecord F)
      (new : Bool)
      → again.request_id ≡ x.request_id
      → record_analyst_review k x analyst fresh now now' s ≡ (ok (r, new), s')
      → record_analyst_review j again other fresh' later later' s'
        ≡ (if k == j then (ok (r, false), s') else (err invalid_transition, s'))
  review_again k j x again analyst other fresh now now' fresh' later later' s s' r new same q =
      let found =
        review_found_after k x analyst fresh now now' s s' r new _
          (review_outcome k x analyst fresh now now' s) q in
      review_found j again other fresh' later later' s' r k (rw same found.0) (rw same found.1)
