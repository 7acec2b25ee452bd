-- ===== src/Repository/Invariant/Rehash.antt =====
-- `update_analyst_review_audit_hash` keeps the invariant, and finds the review that it updates.
use razor_trust.Common.{
  ℕ, ◌≡◌, some, List, [], ◌∷◌, ◌==◌, arith, length, last, All, ◌<◌, Bool-cases, inl, inr, ==_iff,
  Option-cases,
}
use mathlib.Core.Path.{subst}
use razor_trust.Common.Dict.{lookup, insert, lookup-insert}
use razor_trust.Common.Exec.{Result, ok, err, Exception, invalid_transition, index_error}
use razor_trust.Domain.{AnalystReviewRecord}
use razor_trust.Repository.State.{Repository}
use razor_trust.Repository.Reviews.{set_last, update_analyst_review_audit_hash}
use razor_trust.Repository.Invariant.{IsValid, Filed}

module _ {F : Type 0} where
  abbrev pub rehashed : AnalystReviewRecord F → List ℕ → AnalystReviewRecord F
  rehashed r hash = record r { audit_head_hash = hash }

  -- The dictionaries after the update of the review `r`, the last of `rs`.
  abbrev pub rehash :
      ℕ
      → List (AnalystReviewRecord F)
      → AnalystReviewRecord F
      → List ℕ
      → Repository F
      → Repository F
  rehash k rs r hash s = record s {
    reviews = insert k (set_last rs (rehashed r hash)) s.reviews;
    reviews_by_request = insert r.submission.request_id (rehashed r hash) s.reviews_by_request;
  }

  pub data RehashOutcome (k : ℕ) (hash : List ℕ) (s : Repository F)
      (res : Result (AnalystReviewRecord F) × Repository F) : Type 0 where
    refused : (x : Exception) → res ≡ (err x, s) → RehashOutcome k hash s res
    updated :
        (rs : List (AnalystReviewRecord F)) (r : AnalystReviewRecord F)
        → lookup k s.reviews ≡ some rs
        → last rs ≡ some r
        → res ≡ (ok (rehashed r hash), rehash k rs r hash s)
        → RehashOutcome k hash s res

  pub rehash_outcome :
      (k : ℕ) (hash : List ℕ) (s : Repository F)
      → RehashOutcome k hash s (update_analyst_review_audit_hash k hash s)
  unfolding update_analyst_review_audit_hash
  rehash_outcome k hash s = elim (Option-cases (lookup k s.reviews)) [
    | inl lost ↦ refused invalid_transition (rw lost)
    | inr (rs, e) ↦ elim (Option-cases (last rs)) [
      | inl none' ↦ refused index_error (rw e (rw none'))
      | inr (r, l) ↦ updated rs r e l (rw e (rw l))
    ]
  ]

  All-last :
      (P : AnalystReviewRecord F → Type 0) (rs : List (AnalystReviewRecord F))
      (r : AnalystReviewRecord F)
      → All P rs
      → last rs ≡ some r
      → P r
  All-last P [] r h e = cc
  All-last P (x ∷ []) r h e = let same : x ≡ r = cc in subst P same h.0
  All-last P (x ∷ y ∷ rs) r h e = All-last P (y ∷ rs) r h.1 e

  All-set_last :
      (P : AnalystReviewRecord F → Type 0) (rs : List (AnalystReviewRecord F))
      (r : AnalystReviewRecord F)
      → All P rs
      → P r
      → 0 < length rs
      → All P (set_last rs r) × (0 < length (set_last rs r))
  All-set_last P [] r h pr pos = absurd (omega arith)
  All-set_last P (x ∷ []) r h pr pos = ((pr, tt), omega arith)
  All-set_last P (x ∷ y ∷ rs) r h pr pos =
      let rest = All-set_last P (y ∷ rs) r h.1 pr (omega arith) in ((h.0, rest.0), omega arith)

  module _ (s : Repository F) (v : IsValid s) (k : ℕ) (hash : List ℕ)
      (rs : List (AnalystReviewRecord F)) (r : AnalystReviewRecord F)
      (e : lookup k s.reviews ≡ some rs) (l : last rs ≡ some r) where
    Filed-last : Filed s k r
    Filed-last = All-last (Filed s k) rs r (v.filed k rs e).0 l

    filed-rehash :
        (j : ℕ) (xs : List (AnalystReviewRecord F))
        → lookup j (rehash k rs r hash s).reviews ≡ some xs
        → (All (Filed s j) xs) × (0 < length xs)
    filed-rehash j xs y = elim (Bool-cases (k == j)) [
      | inl same ↦
          let eq : set_last rs (rehashed r hash) ≡ xs =
            ground (arith, lookup-insert k j (set_last rs (rehashed r hash)) s.reviews) in
          rw (← (==_iff k j).0 same) (
            subst (λ zs. (All (Filed s k) zs) × (0 < length zs)) eq
              (All-set_last (Filed s k) rs (rehashed r hash) (v.filed k rs e).0 Filed-last
                (v.filed k rs e).1))
      | inr other ↦
          v.filed j xs (ground (arith, lookup-insert k j (set_last rs (rehashed r hash)) s.reviews))
    ]

    pub rehash-IsValid : IsValid (rehash k rs r hash s)
    rehash-IsValid = record {
      holds = λ j h y. ground (arith, v.holds j h);
      requests = v.requests;
      decisions_known = v.decisions_known;
      evidence_known = v.evidence_known;
      evidence_requests = v.evidence_requests;
      review_holds = λ q id y. ground (
        arith,
        lookup-insert r.submission.request_id q (rehashed r hash) s.reviews_by_request,
        v.review_holds q id,
        Filed-last,
      );
      review_requests = λ q id y. ground (
        arith,
        lookup-insert r.submission.request_id q (rehashed r hash) s.reviews_by_request,
        v.review_requests q id,
      );
      filed = filed-rehash;
    }
