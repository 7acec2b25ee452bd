-- ===== src/Repository/Calls/Safety.antt =====
-- Every call is atomic and keeps the invariant.
use razor_trust.Common.{
  List, [], String, ℕ, ◌≡◌, refl, Bool, Option, none, some, arith, Option-cases, inl, inr,
}
use razor_trust.Common.Dict.{lookup, lookup-empty}
use razor_trust.Common.Exec.{Exception, Result, ok, err}
use razor_trust.Common.Platform.{Platform}
use razor_trust.Domain.{
  EvidenceRecord, AnalystReviewRecord, HoldCreate, HoldCase, HoldEvaluationInput, FeatureVector,
  EvidenceSubmission, AnalystReviewSubmission, DecisionResponse,
}
use razor_trust.Repository.State.{Repository, empty}
use razor_trust.Repository.Cases
use razor_trust.Repository.Cases.{new_case}
use razor_trust.Repository.Submissions.{evidence_record, submitted_case}
use razor_trust.Repository.Reviews.{review_record}
use razor_trust.Repository.Outcomes.{
  CreateOutcome, create_outcome, SaveOutcome, save_decision_outcome,
}
use razor_trust.Repository.SubmitOutcome.{SubmitOutcome, submit_outcome}
use razor_trust.Repository.ReviewOutcome.{ReviewOutcome, review_outcome}
use razor_trust.Repository.Invariant.{IsValid}
use razor_trust.Repository.Invariant.Updates.{
  created-IsValid, decided-IsValid, submitted-IsValid, reviewed-IsValid, snapshot-IsValid,
}
use razor_trust.Repository.Invariant.Rehash.{RehashOutcome, rehash_outcome, rehash-IsValid}
use razor_trust.Repository.Calls.{Call, raised, perform, IsFresh, Reach, start, call}

-- A call raises and writes nothing, or it writes and keeps the invariant.
abbrev Keeps : {A F : Type 0} → Repository F → Result A × Repository F → Type 0
Keeps s (ok _, s') = IsValid s'
Keeps s (err _, s') = s' ≡ s

module _ {F : Type 0} (s : Repository F) (v : IsValid s) where
  create-Keeps :
      (r : HoldCreate) (fresh now now' : ℕ) (res : Result (HoldCase × Bool) × Repository F)
      → lookup fresh s.cases ≡ none
      → CreateOutcome r fresh now now' s res
      → Keeps s res
  create-Keeps r fresh now now' res unused (CreateOutcome.refused x e) = rw e refl
  create-Keeps r fresh now now' res unused (CreateOutcome.existing id h i l e) = rw e v
  create-Keeps r fresh now now' res unused (CreateOutcome.fresh_case i e) =
      rw e (created-IsValid s v (new_case r fresh now now') unused refl refl)

  save_decision-Keeps :
      (d : DecisionResponse F) (now : ℕ) (res : Result HoldCase × Repository F)
      → SaveOutcome d now s res
      → Keeps s res
  save_decision-Keeps d now res (SaveOutcome.refused x e) = rw e refl
  save_decision-Keeps d now res (SaveOutcome.saved old l fine e) =
      rw e (decided-IsValid s v d now old l fine)

  record_analyst_review-Keeps :
      (k : ℕ) (x : AnalystReviewSubmission F) (analyst : String) (fresh now now' : ℕ)
      (res : Result (AnalystReviewRecord F × Bool) × Repository F)
      → ReviewOutcome k x analyst fresh now now' s res
      → Keeps s res
  record_analyst_review-Keeps k x analyst fresh now now' res (ReviewOutcome.refused y e) = rw e refl
  record_analyst_review-Keeps k x analyst fresh now now' res (ReviewOutcome.repeated r i l e) =
      rw e v
  record_analyst_review-Keeps k x analyst fresh now now' res
        (ReviewOutcome.recorded old d ai label new l ready res_d lai fine lab e) =
      rw e (
        reviewed-IsValid s v (review_record k x analyst label fresh now) d x now' old ai new l lai
          ready fine)

  snapshot-Keeps :
      (k : ℕ) (i : HoldEvaluationInput F) (f : FeatureVector F)
      → Keeps s (Cases.save_feature_snapshot k i f s)
  unfolding Cases.save_feature_snapshot
  snapshot-Keeps k i f = elim (Option-cases (lookup k s.cases)) [
    | inl lost ↦ rw lost refl
    | inr (h, e) ↦ rw e (snapshot-IsValid s v k i f)
  ]

  rehash-Keeps :
      (k : ℕ) (hash : List ℕ) (res : Result (AnalystReviewRecord F) × Repository F)
      → RehashOutcome k hash s res
      → Keeps s res
  rehash-Keeps k hash res (RehashOutcome.refused x e) = rw e refl
  rehash-Keeps k hash res (RehashOutcome.updated rs r l la e) =
      rw e (rehash-IsValid s v k hash rs r l la)

nothing : {V : Type 0} (k : ℕ) (x : V) → lookup k [] ≡ some x → ⊥
nothing {V} k x e = cc (lookup-empty {V = V} k)

module _ (p : Platform) where
  open p use {Float}

  submit_evidence-Keeps :
      (s : Repository Float) (v : IsValid s) (k : ℕ) (x : EvidenceSubmission) (fresh now now' : ℕ)
      (res : Result (EvidenceRecord Float × Bool) × Repository Float)
      → SubmitOutcome p k x fresh now now' s res
      → Keeps s res
  submit_evidence-Keeps s v k x fresh now now' res (SubmitOutcome.refused y e) = rw e refl
  submit_evidence-Keeps s v k x fresh now now' res (SubmitOutcome.other_hold id l ne e) = rw e refl
  submit_evidence-Keeps s v k x fresh now now' res (SubmitOutcome.repeated r i l e) = rw e v
  submit_evidence-Keeps s v k x fresh now now' res (SubmitOutcome.accepted old new l fine e) =
      rw e (
        submitted-IsValid s v (evidence_record p old x k fresh now) old (submitted_case p now' old)
          l (ground arith) refl refl refl refl)

  -- What a call may leave behind: after an exception the dictionaries are as they were.
  abbrev pub Settles : Repository Float → Option Exception × Repository Float → Type 0
  Settles s (none, s') = IsValid s'
  Settles s (some _, s') = s' ≡ s

  Settles-raised :
      {A : Type 0} (s : Repository Float) (res : Result A × Repository Float)
      → Keeps s res
      → Settles s (raised res)
  Settles-raised s (ok a, s') h = h
  Settles-raised s (err x, s') h = h

  -- A call on a valid repository either raises and leaves every dictionary as it was, or leaves a
  -- valid repository, if `uuid4()` gives a hold an identifier that no hold has.
  pub perform-Settles :
      (c : Call Float) (s : Repository Float)
      → IsFresh p c s
      → IsValid s
      → Settles s (perform p c s)
  unfolding perform
  perform-Settles (Call.create r fresh now now') s f v =
      Settles-raised s _ (create-Keeps s v r fresh now now' _ f (create_outcome r fresh now now' s))
  perform-Settles (Call.save_feature_snapshot k i x) s f v =
      Settles-raised s _ (snapshot-Keeps s v k i x)
  perform-Settles (Call.save_decision d now) s f v =
      Settles-raised s _ (save_decision-Keeps s v d now _ (save_decision_outcome d now s))
  perform-Settles (Call.submit_evidence k x fresh now now') s f v =
      Settles-raised s _
        (submit_evidence-Keeps s v k x fresh now now' _ (submit_outcome p k x fresh now now' s))
  perform-Settles (Call.record_analyst_review k x analyst fresh now now') s f v =
      Settles-raised s _ (
        record_analyst_review-Keeps s v k x analyst fresh now now' _
          (review_outcome k x analyst fresh now now' s))
  perform-Settles (Call.update_analyst_review_audit_hash k hash) s f v =
      Settles-raised s _ (rehash-Keeps s v k hash _ (rehash_outcome k hash s))

  Settles-IsValid :
      (s : Repository Float) (res : Option Exception × Repository Float)
      → IsValid s
      → Settles s res
      → IsValid res.1
  Settles-IsValid s (none, s') v h = h
  Settles-IsValid s (some _, s') v h = rw h v

  empty-IsValid : IsValid {F = Float} empty
  empty-IsValid = record {
    holds = λ k h e. absurd (nothing k h e);
    requests = λ r id e. absurd (nothing r id e);
    decisions_known = λ k e. cc (lookup-empty {V = DecisionResponse Float} k);
    evidence_known = λ k e. cc (lookup-empty {V = EvidenceRecord Float} k);
    evidence_requests = λ r id e. absurd (nothing r id e);
    review_holds = λ r id e. absurd (nothing r id e);
    review_requests = λ r id e. absurd (nothing r id e);
    filed = λ k rs e. absurd (nothing k rs e);
  }

  -- Whatever calls are made, in whatever order, failing or not, the repository stays valid, if every
  -- new hold gets an identifier that no hold has.
  pub Reach-IsValid : {s : Repository Float} → Reach p s → IsValid s
  Reach-IsValid start = empty-IsValid
  Reach-IsValid (call {s = s} c r f) =
      let v = Reach-IsValid r in Settles-IsValid s (perform p c s) v (perform-Settles c s f v)
