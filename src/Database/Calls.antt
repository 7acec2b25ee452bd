-- ===== src/Database/Calls.antt =====
-- Sequences of calls of `SqlHoldRepository`, and what they keep of the audit trail.
use razor_trust.Database.EvidenceSteps.{submit_evidence-Steps}
use razor_trust.Database.Steps.{
  record_analyst_review-Steps, save_decision_and_audit-Steps, save_decision-Steps,
  save_feature_snapshot-Steps, create-Steps, Steps,
}
use razor_trust.Database.Chain.{AuditStep-IsAudited, empty-IsAudited, IsAudited, AuditStep}
use razor_trust.Database.Tables.{empty_database, Database, SqlHashing}
use razor_trust.Database.Holds
use razor_trust.Database.Decisions
use razor_trust.Database.Evidence
use razor_trust.Database.Reviews
use razor_trust.Common.{ℕ, String}
use razor_trust.Common.Platform.{Platform}
use razor_trust.Domain.{
  AnalystReviewSubmission, EvidenceSubmission, DecisionResponse, FeatureVector, HoldEvaluationInput,
  HoldCreate,
}

pub data Call (F X : Type 0) : Type 0 where
  create : HoldCreate → (fresh now : ℕ) → Call F X
  save_feature_snapshot : ℕ → HoldEvaluationInput F → FeatureVector F → (now : ℕ) → Call F X
  save_decision : DecisionResponse F → (now : ℕ) → Call F X
  save_decision_and_audit :
      DecisionResponse F → X → (trace_id : String) (event_id now : ℕ) → Call F X
  submit_evidence : ℕ → EvidenceSubmission → (fresh now now' : ℕ) → Call F X
  record_analyst_review :
      ℕ → AnalystReviewSubmission F → String → (review_id event_id now : ℕ) → Call F X

module _ (p : Platform) {X : Type 0} (h : SqlHashing p.Float X) where
  -- The database after a call, whether it returns or raises.
  unfoldable pub after : Call p.Float X → Database p.Float X → Database p.Float X
  after (Call.create r fresh now) s = (Holds.create r fresh now (λ t. t) s).1
  after (Call.save_feature_snapshot k i f now) s = (Holds.save_feature_snapshot k i f now s).1
  after (Call.save_decision d now) s = (Decisions.save_decision d now s).1
  after (Call.save_decision_and_audit d x trace_id event_id now) s =
      (Decisions.save_decision_and_audit h d x trace_id event_id now s).1
  after (Call.submit_evidence k x fresh now now') s =
      (Evidence.submit_evidence p k x fresh now now' s).1
  after (Call.record_analyst_review k x analyst review_id event_id now) s =
      (Reviews.record_analyst_review h k x analyst review_id event_id now s).1

  -- The databases that calls lead to.
  pub data Reach : Database p.Float X → Type 0 where
    start : Reach empty_database
    call : {s : Database p.Float X} (c : Call p.Float X) → Reach s → Reach (after c s)

  after-AuditStep : (c : Call p.Float X) (s : Database p.Float X) → AuditStep h s (after c s)
  unfolding after Steps
  after-AuditStep (Call.create r fresh now) s = create-Steps h s r fresh now
  after-AuditStep (Call.save_feature_snapshot k i f now) s =
      save_feature_snapshot-Steps h s k i f now
  after-AuditStep (Call.save_decision d now) s = save_decision-Steps h s d now
  after-AuditStep (Call.save_decision_and_audit d x trace_id event_id now) s =
      save_decision_and_audit-Steps h s d x trace_id event_id now
  after-AuditStep (Call.submit_evidence k x fresh now now') s =
      submit_evidence-Steps p h s k x fresh now now'
  after-AuditStep (Call.record_analyst_review k x analyst review_id event_id now) s =
      record_analyst_review-Steps h s k x analyst review_id event_id now

  -- In every database that calls of `SqlHoldRepository` lead to, returning or raising, the audit
  -- events of each hold are numbered from 1 without a gap and form one chain of hashes from the
  -- genesis hash, and the outbox has exactly the audit events, in their order.
  pub Reach-IsAudited : {s : Database p.Float X} → Reach s → IsAudited h s
  Reach-IsAudited start = empty-IsAudited h
  Reach-IsAudited (call {s} c r) =
      AuditStep-IsAudited h s (after c s) (after-AuditStep c s) (Reach-IsAudited r)
