-- ===== src/Repository/Calls.antt =====
-- A use of the repository: any sequence of calls of the methods that write, valid or not.
pub mod Safety
pub mod Moves
use razor_trust.Common.{
  ℕ, String, ◌≡◌, Option, none, some, List, Bool, true, false, not, is_some, Option-cases, inl, inr,
}
use razor_trust.Common.Dict.{lookup}
use razor_trust.Common.Exec.{Exception, Result, ok, err, hold_not_found}
use razor_trust.Common.Platform.{Platform}
use razor_trust.Domain.{
  HoldCreate, HoldCase, HoldEvaluationInput, FeatureVector, EvidenceSubmission,
  AnalystReviewSubmission, DecisionResponse,
}
use razor_trust.Repository.State.{Repository, empty}
use razor_trust.Repository.Cases
use razor_trust.Repository.Submissions
use razor_trust.Repository.Reviews

-- A call, with what `uuid4()` and `utc_now()` return in it.
pub data Call (F : Type 0) : Type 0 where
  create : HoldCreate → (fresh now now' : ℕ) → Call F
  save_feature_snapshot : ℕ → HoldEvaluationInput F → FeatureVector F → Call F
  save_decision : DecisionResponse F → ℕ → Call F
  submit_evidence : ℕ → EvidenceSubmission → (fresh now now' : ℕ) → Call F
  record_analyst_review : ℕ → AnalystReviewSubmission F → String → (fresh now now' : ℕ) → Call F
  update_analyst_review_audit_hash : ℕ → List ℕ → Call F

abbrev pub raised : {A S : Type 0} → Result A × S → Option Exception × S
raised (ok a, s) = (none, s)
raised (err x, s) = (some x, s)

module _ (p : Platform) where
  open p use {Float}

  -- The exception that the call raises, if it does, and the dictionaries after it.
  unfoldable pub perform : Call Float → Repository Float → Option Exception × Repository Float
  perform (Call.create r fresh now now') s = raised (Cases.create r fresh now now' s)
  perform (Call.save_feature_snapshot k i f) s = raised (Cases.save_feature_snapshot k i f s)
  perform (Call.save_decision d now) s = raised (Cases.save_decision d now s)
  perform (Call.submit_evidence k x fresh now now') s =
      raised (Submissions.submit_evidence p k x fresh now now' s)
  perform (Call.record_analyst_review k x analyst fresh now now') s =
      raised (Reviews.record_analyst_review k x analyst fresh now now' s)
  perform (Call.update_analyst_review_audit_hash k hash) s =
      raised (Reviews.update_analyst_review_audit_hash k hash s)

  -- `uuid4()` does not return the identifier of a hold that is there.
  abbrev pub IsFresh : Call Float → Repository Float → Type 0
  IsFresh (Call.create r fresh now now') s = lookup fresh s.cases ≡ none
  IsFresh _ s = Unit

  -- The repositories that a sequence of calls leads to.
  pub data Reach : Repository Float → Type 0 where
    start : Reach empty
    call : {s : Repository Float} (c : Call Float) → Reach s → IsFresh c s → Reach (perform c s).1
