-- ===== src/Repository/Invariant.antt =====
-- What holds of the repository between two method calls.
pub mod Updates
pub mod Rehash
use razor_trust.Common.{
  Option, none, some, ◌<◌, List, length, All, ℕ, ◌≤◌, ◌≡◌, ◌≢◌, Bool, true, false, is_some, some,
  arith, ==_refl, Option-cases, inl, inr, Bool-cases,
}
use razor_trust.Common.Dict.{lookup, insert, lookup-insert}
use razor_trust.Domain.{
  opened, awaiting_evidence, evidence_submitted, HoldState, HoldCase, EvidenceRecord,
  AnalystReviewRecord, DecisionResponse,
}
use razor_trust.Repository.State.{Repository}
use razor_trust.Repository.Cases.{save_decision, create}

abbrev pub known {ℓ} : {V : Type ℓ} → ℕ → razor_trust.Common.Dict.Dict V → Bool
known k d = is_some (lookup k d)

-- What an index must lead to: a hold, an evidence record or a review made by that request.
abbrev pub case_request : Option HoldCase → Option ℕ
case_request none = none
case_request (some h) = some h.request_id

module _ {F : Type 0} where
  abbrev pub evidence_request : Option (EvidenceRecord F) → Option ℕ
  evidence_request none = none
  evidence_request (some e) = some e.submission.request_id

  abbrev pub review_hold : Option (AnalystReviewRecord F) → Option ℕ
  review_hold none = none
  review_hold (some r) = some r.hold_id

  abbrev pub review_request : Option (AnalystReviewRecord F) → Option ℕ
  review_request none = none
  review_request (some r) = some r.submission.request_id

module _ {F : Type 0} where
  -- The hold that stands under `k`.
  pub record HoldOk (s : Repository F) (k : ℕ) (h : HoldCase) : Type 0 where
    pub own_id : h.hold_id ≡ k
    pub round_bound : h.evidence_round ≤ 1
    pub open_first : h.state ≡ opened → h.evidence_round ≡ 0
    pub awaiting_first : h.state ≡ awaiting_evidence → h.evidence_round ≡ 0
    pub submitted_second : h.state ≡ evidence_submitted → h.evidence_round ≡ 1
    pub decided : h.state ≢ opened → known k s.decisions ≡ true
    pub undecided : h.state ≡ opened → known k s.decisions ≡ false
    pub evidenced : h.evidence_round ≡ 1 → known k s.evidence ≡ true
    pub unevidenced : h.evidence_round ≡ 0 → known k s.evidence ≡ false

  -- A review in the list of the hold `k`.
  abbrev pub Filed : Repository F → ℕ → AnalystReviewRecord F → Type 0
  Filed s k r = (r.hold_id ≡ k) × (lookup r.submission.request_id s.review_request_index ≡ some k)

  pub record IsValid (s : Repository F) : Type 0 where
    pub holds : (k : ℕ) (h : HoldCase) → lookup k s.cases ≡ some h → HoldOk s k h
    pub requests :
        (r id : ℕ) → lookup r s.request_index ≡ some id → case_request (lookup id s.cases) ≡ some r
    pub decisions_known : (k : ℕ) → known k s.decisions ≡ true → known k s.cases ≡ true
    pub evidence_known : (k : ℕ) → known k s.evidence ≡ true → known k s.cases ≡ true
    pub evidence_requests :
        (r id : ℕ)
        → lookup r s.evidence_request_index ≡ some id
        → evidence_request (lookup id s.evidence) ≡ some r
    pub review_holds :
        (r id : ℕ)
        → lookup r s.review_request_index ≡ some id
        → review_hold (lookup r s.reviews_by_request) ≡ some id
    pub review_requests :
        (r id : ℕ)
        → lookup r s.review_request_index ≡ some id
        → review_request (lookup r s.reviews_by_request) ≡ some r
    pub filed :
        (k : ℕ) (rs : List (AnalystReviewRecord F))
        → lookup k s.reviews ≡ some rs
        → (All (Filed s k) rs) × (0 < length rs)
