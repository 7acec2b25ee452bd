-- ===== src/Repository/Lifecycle.antt =====
-- The lifecycle of a hold under any calls of the repository.
use razor_trust.Repository.State.{Repository}
use razor_trust.Repository.Invariant.{IsValid}
use razor_trust.Common.Dict.{lookup}
use razor_trust.Repository.Calls.Moves.{perform-Moves, Step}
use razor_trust.Common.Platform.{Platform}
use razor_trust.Domain.{HoldCase}
use razor_trust.Repository.Calls.{perform, IsFresh, Call}
use razor_trust.Common.{inr, inl, some, arith, ℕ, ◌≤◌, ◌≡◌}

-- The facts about a hold that no call changes.
pub record SameCase (old new : HoldCase) : Type 0 where
  pub same_id : new.hold_id ≡ old.hold_id
  pub same_request : new.request_id ≡ old.request_id
  pub same_merchant : new.merchant_id ≡ old.merchant_id
  pub same_event : new.source_event_id ≡ old.source_event_id
  pub same_trigger : new.triggered_at ≡ old.triggered_at
  pub same_reason : new.reason_code ≡ old.reason_code
  pub same_creation : new.created_at ≡ old.created_at

-- A hold that is there after the call, with the same case and no earlier evidence round.
abbrev pub Advances : {F : Type 0} → ℕ → HoldCase → Repository F → Type 0
Advances k old s' =
    (new : HoldCase) × (lookup k s'.cases ≡ some new)
    × SameCase old new
    × (old.evidence_round ≤ new.evidence_round)
    × (new.evidence_round ≤ 1)

SameCase-refl : (h : HoldCase) → SameCase h h
SameCase-refl h = ground arith

Step-SameCase :
    {F : Type 0} (c : Call F) (k : ℕ) (old new : HoldCase) → Step c k old new → SameCase old new
Step-SameCase (Call.create r fresh now now') k old new h = elim h [ ]
Step-SameCase (Call.save_feature_snapshot j i x) k old new h = elim h [ ]
Step-SameCase (Call.update_analyst_review_audit_hash j hash) k old new h = elim h [ ]
Step-SameCase (Call.save_decision d now) k old new h = ground arith
Step-SameCase (Call.submit_evidence j x fresh now now') k old new h = ground arith
Step-SameCase (Call.record_analyst_review j x analyst fresh now now') k old new h = ground arith

Step-round :
    {F : Type 0} (c : Call F) (k : ℕ) (old new : HoldCase)
    → Step c k old new
    → old.evidence_round ≤ 1
    → (old.evidence_round ≤ new.evidence_round) × (new.evidence_round ≤ 1)
Step-round (Call.create r fresh now now') k old new h b = elim h [ ]
Step-round (Call.save_feature_snapshot j i x) k old new h b = elim h [ ]
Step-round (Call.update_analyst_review_audit_hash j hash) k old new h b = elim h [ ]
Step-round (Call.save_decision d now) k old new h b = ground arith
Step-round (Call.submit_evidence j x fresh now now') k old new h b = ground arith
Step-round (Call.record_analyst_review j x analyst fresh now now') k old new h b = ground arith

module _ (p : Platform) (c : Call p.Float) (s : Repository p.Float) (k : ℕ) (old : HoldCase)
    (fresh : IsFresh p c s) (e : lookup k s.cases ≡ some old) where
  -- From a valid repository, if a new hold gets an unused identifier: whatever the call, the hold keeps its identity, its request, its merchant
  -- and its trigger, and its evidence round grows from 0 to 1 at most and never falls.
  pub perform-Advances : IsValid s → Advances k old (perform p c s).1
  perform-Advances v =
      let (new, l, change) = perform-Moves p c s k old fresh e in
      let bound = (v.holds k old e).round_bound in
      elim change [
        | inl same ↦ (new, l, rw same (SameCase-refl old), rw same (omega arith), rw same bound)
        | inr step ↦
            let round = Step-round c k old new step bound in
            (new, l, Step-SameCase c k old new step, round.0, round.1)
      ]
