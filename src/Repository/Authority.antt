-- ===== src/Repository/Authority.antt =====
-- Money is released only on a recorded human decision: a RESOLVED hold has a review in its list whose
-- decision is RELEASE, in every repository that calls can lead to.
pub mod Calls
use razor_trust.Repository.Submissions.{submitted_case}
use razor_trust.Repository.SubmitOutcome.{submit_outcome, SubmitOutcome}
use razor_trust.Repository.ReviewOutcome.{review_outcome, ReviewOutcome}
use razor_trust.Repository.Outcomes.{
  save_decision_outcome, CreateOutcome, create_outcome, SaveOutcome,
}
use razor_trust.Common.{
  ℕ, String, ◌≡◌, refl, ◌≢◌, ◌⊎◌, inl, inr, Bool, Option, none, some, List, [], ◌∷◌, ◌++◌, arith,
  ◌==◌, ==_iff, Bool-cases, Option-cases, last,
}
use razor_trust.Common.Exec.{Result, ok, err}
use razor_trust.Common.Dict.{lookup, insert, lookup-insert, lookup-empty}
use razor_trust.Common.Platform.{Platform}
use razor_trust.Domain.{
  EvidenceRecord, FeatureVector, EvidenceSubmission, AnalystReviewSubmission, HoldCreate,
  HoldEvaluationInput, resolved_decision, DecisionResponse, HoldCase, AnalystReviewRecord,
  HoldDecision, release, resolved,
}
use razor_trust.Repository.Invariant.Rehash.{rehash_outcome, RehashOutcome, rehash, rehashed}
use razor_trust.Repository.Cases.{new_case, decided_case, decided}
use razor_trust.Repository.Reviews.{review_record, reviewed_case, set_last, reviewed, review_list}
use razor_trust.Repository.State.{Repository}
use razor_trust.Repository.Cases
use razor_trust.Repository.Calls.{call, Reach, raised, perform, Call}

module _ {F : Type 0} where
  abbrev pub AnyReleases : List (AnalystReviewRecord F) → Type 0
  AnyReleases [] = ⊥
  AnyReleases (r ∷ rs) = (resolved_decision r.submission ≡ ok release) ⊎ AnyReleases rs

  abbrev pub HasRelease : Option (List (AnalystReviewRecord F)) → Type 0
  HasRelease none = ⊥
  HasRelease (some rs) = AnyReleases rs

  -- Every RESOLVED hold has a review that released it.
  abbrev pub IsAccounted : Repository F → Type 0
  IsAccounted s =
      (k : ℕ) (h : HoldCase)
      → lookup k s.cases ≡ some h
      → h.state ≡ resolved
      → HasRelease (lookup k s.reviews)

  AnyReleases-append :
      (rs : List (AnalystReviewRecord F)) (r : AnalystReviewRecord F)
      → AnyReleases rs
      → AnyReleases (rs ++ r ∷ [])
  AnyReleases-append [] r h = elim h [ ]
  AnyReleases-append (x ∷ rs) r (inl h) = inl h
  AnyReleases-append (x ∷ rs) r (inr h) = inr (AnyReleases-append rs r h)

  AnyReleases-new :
      (rs : List (AnalystReviewRecord F)) (r : AnalystReviewRecord F)
      → resolved_decision r.submission ≡ ok release
      → AnyReleases (rs ++ r ∷ [])
  AnyReleases-new [] r h = inl h
  AnyReleases-new (x ∷ rs) r h = inr (AnyReleases-new rs r h)

  AnyReleases-set_last :
      (rs : List (AnalystReviewRecord F)) (r : AnalystReviewRecord F) (hash : List ℕ)
      → last rs ≡ some r
      → AnyReleases rs
      → AnyReleases (set_last rs (rehashed r hash))
  AnyReleases-set_last [] r hash e h = elim h [ ]
  AnyReleases-set_last (x ∷ []) r hash e (inl h) = inl (let same : x ≡ r = cc in rw (← same) h)
  AnyReleases-set_last (x ∷ []) r hash e (inr h) = elim h [ ]
  AnyReleases-set_last (x ∷ y ∷ rs) r hash e (inl h) = inl h
  AnyReleases-set_last (x ∷ y ∷ rs) r hash e (inr h) =
      inr (AnyReleases-set_last (y ∷ rs) r hash e h)

  -- The list that `setdefault` finds, with one more review.
  HasRelease-append :
      (o : Option (List (AnalystReviewRecord F))) (r : AnalystReviewRecord F)
      → HasRelease o
      → AnyReleases (review_list o ++ r ∷ [])
  HasRelease-append none r h = elim h [ ]
  HasRelease-append (some rs) r h = AnyReleases-append rs r h

  module _ (s : Repository F) (a : IsAccounted s) where
    -- A case that is replaced by one that is not resolved leaves the others as they were.
    pub put-IsAccounted :
        (s' : Repository F) (j : ℕ) (new : HoldCase)
        → s'.cases ≡ insert j new s.cases
        → s'.reviews ≡ s.reviews
        → new.state ≢ resolved
        → IsAccounted s'
    put-IsAccounted s' j new q same unresolved k h e res =
        rw same (a k h (ground (arith, unresolved, lookup-insert j k new s.cases)) res)

    pub decided-IsAccounted :
        (d : DecisionResponse F) (now : ℕ) (old : HoldCase)
        → IsAccounted (decided d (decided_case d now old) s)
    decided-IsAccounted d now old =
        put-IsAccounted (decided d (decided_case d now old) s) d.hold_id (decided_case d now old)
          refl refl (ground arith)

    pub reviewed-IsAccounted :
        (r : AnalystReviewRecord F) (d : HoldDecision) (now : ℕ) (old : HoldCase)
        → resolved_decision r.submission ≡ ok d
        → IsAccounted (reviewed r (reviewed_case d r.submission now old) s)
    reviewed-IsAccounted r d now old ed k h e res =
        let new = reviewed_case d r.submission now old in
        let rs = review_list (lookup r.hold_id s.reviews) ++ r ∷ [] in
        elim (Bool-cases (r.hold_id == k)) [
          | inl same ↦
              let d_release : d ≡ release = ground (arith, lookup-insert r.hold_id k new s.cases) in
              rw (lookup-insert r.hold_id k rs s.reviews) (
                rw same (
                  AnyReleases-new (review_list (lookup r.hold_id s.reviews)) r
                    (rw (← d_release) ed)))
          | inr other ↦
              rw (lookup-insert r.hold_id k rs s.reviews)
                (rw other (a k h (ground (arith, lookup-insert r.hold_id k new s.cases)) res))
        ]

    pub rehash-IsAccounted :
        (j : ℕ) (hash : List ℕ) (rs : List (AnalystReviewRecord F)) (r : AnalystReviewRecord F)
        → lookup j s.reviews ≡ some rs
        → last rs ≡ some r
        → IsAccounted (rehash j rs r hash s)
    rehash-IsAccounted j hash rs r l la k h e res =
        let before = a k h e res in
        elim (Bool-cases (j == k)) [
          | inl same ↦
              let found : lookup k s.reviews ≡ some rs = rw (← (==_iff j k).0 same) l in
              rw (lookup-insert j k (set_last rs (rehashed r hash)) s.reviews)
                (rw same (AnyReleases-set_last rs r hash la (rw found at before)))
          | inr other ↦
              rw (lookup-insert j k (set_last rs (rehashed r hash)) s.reviews) (rw other before)
        ]

    pub snapshot-IsAccounted :
        (j : ℕ) (i : HoldEvaluationInput F) (f : FeatureVector F)
        → IsAccounted (Cases.save_feature_snapshot j i f s).1
    unfolding Cases.save_feature_snapshot
    snapshot-IsAccounted j i f = elim (Option-cases (lookup j s.cases)) [
      | inl lost ↦ rw lost a
      | inr (h, l) ↦ rw l a
    ]

    pub stays-IsAccounted : (s' : Repository F) → s' ≡ s → IsAccounted s'
    stays-IsAccounted s' same = rw same a
