-- ===== src/Repository/Authority/Calls.antt =====
-- Every call keeps each RESOLVED hold accounted for by a review that released it.
use razor_trust.Repository.Authority.{
  HasRelease, rehash-IsAccounted, put-IsAccounted, reviewed-IsAccounted, decided-IsAccounted,
  stays-IsAccounted, snapshot-IsAccounted, IsAccounted,
}
use razor_trust.Common.{some, ◌≡◌, ℕ, String, refl, Bool, List, arith}
use razor_trust.Common.Exec.{Result, ok, err}
use razor_trust.Common.Dict.{lookup, lookup-empty}
use razor_trust.Common.Platform.{Platform}
use razor_trust.Domain.{
  resolved, EvidenceRecord, DecisionResponse, HoldCase, AnalystReviewSubmission,
  AnalystReviewRecord, HoldCreate, EvidenceSubmission,
}
use razor_trust.Repository.Submissions.{submitted_case}
use razor_trust.Repository.SubmitOutcome.{submit_outcome, SubmitOutcome}
use razor_trust.Repository.ReviewOutcome.{review_outcome, ReviewOutcome}
use razor_trust.Repository.Outcomes.{
  save_decision_outcome, CreateOutcome, create_outcome, SaveOutcome,
}
use razor_trust.Repository.Invariant.Rehash.{rehash_outcome, RehashOutcome}
use razor_trust.Repository.Cases.{new_case}
use razor_trust.Repository.Reviews.{review_record}
use razor_trust.Repository.State.{Repository}
use razor_trust.Repository.Calls.{Reach, Reach, raised, perform, Call}

module _ (p : Platform) where
  raised-IsAccounted :
      {A : Type 0} (res : Result A × Repository p.Float)
      → IsAccounted res.1
      → IsAccounted (raised res).1
  raised-IsAccounted (ok x, s') h = h
  raised-IsAccounted (err x, s') h = h

  create_step :
      (s : Repository p.Float) (a : IsAccounted s) (r : HoldCreate) (fresh now now' : ℕ)
      (res : Result (HoldCase × Bool) × Repository p.Float)
      → CreateOutcome r fresh now now' s res
      → IsAccounted res.1
  create_step s a r fresh now now' res (CreateOutcome.refused x q) =
      stays-IsAccounted s a res.1 (rw q refl)
  create_step s a r fresh now now' res (CreateOutcome.existing i h l m q) =
      stays-IsAccounted s a res.1 (rw q refl)
  create_step s a r fresh now now' res (CreateOutcome.fresh_case l q) =
      put-IsAccounted s a res.1 fresh (new_case r fresh now now') (rw q refl) (rw q refl)
        (ground arith)

  save_step :
      (s : Repository p.Float) (a : IsAccounted s) (d : DecisionResponse p.Float) (now : ℕ)
      (res : Result HoldCase × Repository p.Float)
      → SaveOutcome d now s res
      → IsAccounted res.1
  save_step s a d now res (SaveOutcome.refused x q) = stays-IsAccounted s a res.1 (rw q refl)
  save_step s a d now res (SaveOutcome.saved old l fine q) =
      rw q (decided-IsAccounted s a d now old)

  submit_step :
      (s : Repository p.Float) (a : IsAccounted s) (k : ℕ) (x : EvidenceSubmission)
      (fresh now now' : ℕ) (res : Result (EvidenceRecord p.Float × Bool) × Repository p.Float)
      → SubmitOutcome p k x fresh now now' s res
      → IsAccounted res.1
  submit_step s a k x fresh now now' res (SubmitOutcome.refused y q) =
      stays-IsAccounted s a res.1 (rw q refl)
  submit_step s a k x fresh now now' res (SubmitOutcome.other_hold id l ne q) =
      stays-IsAccounted s a res.1 (rw q refl)
  submit_step s a k x fresh now now' res (SubmitOutcome.repeated r i l q) =
      stays-IsAccounted s a res.1 (rw q refl)
  submit_step s a k x fresh now now' res (SubmitOutcome.accepted old new l fine q) =
      put-IsAccounted s a res.1 k (submitted_case p now' old) (rw q refl) (rw q refl) (ground arith)

  review_step :
      (s : Repository p.Float) (a : IsAccounted s) (k : ℕ) (x : AnalystReviewSubmission p.Float)
      (analyst : String) (fresh now now' : ℕ)
      (res : Result (AnalystReviewRecord p.Float × Bool) × Repository p.Float)
      → ReviewOutcome k x analyst fresh now now' s res
      → IsAccounted res.1
  review_step s a k x analyst fresh now now' res (ReviewOutcome.refused y q) =
      stays-IsAccounted s a res.1 (rw q refl)
  review_step s a k x analyst fresh now now' res (ReviewOutcome.repeated r i l q) =
      stays-IsAccounted s a res.1 (rw q refl)
  review_step s a k x analyst fresh now now' res
        (ReviewOutcome.recorded old d ai label new l ready ed lai fine lab q) =
      rw q (reviewed-IsAccounted s a (review_record k x analyst label fresh now) d now' old ed)

  rehash_step :
      (s : Repository p.Float) (a : IsAccounted s) (k : ℕ) (hash : List ℕ)
      (res : Result (AnalystReviewRecord p.Float) × Repository p.Float)
      → RehashOutcome k hash s res
      → IsAccounted res.1
  rehash_step s a k hash res (RehashOutcome.refused x q) = stays-IsAccounted s a res.1 (rw q refl)
  rehash_step s a k hash res (RehashOutcome.updated rs r l la q) =
      rw q (rehash-IsAccounted s a k hash rs r l la)

  perform-IsAccounted :
      (c : Call p.Float) (s : Repository p.Float) → IsAccounted s → IsAccounted (perform p c s).1
  unfolding perform
  perform-IsAccounted (Call.create r fresh now now') s a =
      raised-IsAccounted _ (create_step s a r fresh now now' _ (create_outcome r fresh now now' s))
  perform-IsAccounted (Call.save_feature_snapshot j i x) s a =
      raised-IsAccounted _ (snapshot-IsAccounted s a j i x)
  perform-IsAccounted (Call.save_decision d now) s a =
      raised-IsAccounted _ (save_step s a d now _ (save_decision_outcome d now s))
  perform-IsAccounted (Call.submit_evidence j x fresh now now') s a =
      raised-IsAccounted _
        (submit_step s a j x fresh now now' _ (submit_outcome p j x fresh now now' s))
  perform-IsAccounted (Call.record_analyst_review j x analyst fresh now now') s a =
      raised-IsAccounted _
        (review_step s a j x analyst fresh now now' _ (review_outcome j x analyst fresh now now' s))
  perform-IsAccounted (Call.update_analyst_review_audit_hash j hash) s a =
      raised-IsAccounted _ (rehash_step s a j hash _ (rehash_outcome j hash s))

  Reach-IsAccounted : {s : Repository p.Float} → Reach p s → IsAccounted s
  Reach-IsAccounted Reach.start = λ k h e res. cc (lookup-empty {V = HoldCase} k)
  Reach-IsAccounted (Reach.call {s = s} c r f) = perform-IsAccounted c s (Reach-IsAccounted r)

  -- In every repository that calls can lead to, if every new hold gets an unused identifier, a RESOLVED
  -- hold has among its recorded reviews one whose resolved decision is RELEASE: no score, policy result
  -- or evidence resolves a hold by itself.
  pub resolved-HasRelease :
      {s : Repository p.Float} (k : ℕ) (h : HoldCase)
      → Reach p s
      → lookup k s.cases ≡ some h
      → h.state ≡ resolved
      → HasRelease (lookup k s.reviews)
  resolved-HasRelease k h r e res = Reach-IsAccounted r k h e res
