-- ===== src/Workflow.antt =====
-- `HoldService` of src/razortrust/workflow.py over the in-memory repository and the audit ledger.
pub mod State
pub mod Failures
pub mod Score
pub mod Settled
use razor_trust.Workflow.Score.{score}
use razor_trust.Workflow.State.{
  analyst_outcome, evidence_filed, hold_created, entry_of, on_ledger, on_repository, World, Stamps,
  Payload, Parts,
}
use razor_trust.Audit.{append, genesis_hash, Entry, same_digest, Hashing}
use razor_trust.Common.{
  ℕ, zero, suc, ◌+◌, ◌-◌, ◌*◌, ◌/◌, ◌%◌, ◌≤◌, ◌<◌, String, ◌≡◌, refl, sym, ap, ◌∙◌, ◌≢◌, ◌↔◌, ◌⊎◌,
  inl, inr, Bool, true, false, not, ◌&&◌, ◌||◌, Option, none, some, List, [], ◌∷◌, ◌++◌, map, arith,
  str_eq, eq_iff, ltb, leb, ◌==◌, if◌then◌else◌, is_some, ==_iff, ==_refl, Bool-cases, Option-cases,
  length, take, replicate, last, length-append, All, All-append, All_mono,
}
use razor_trust.Common.Exec.{
  Exception, Result, ok, err, and_then, Exec, pure, raise, lift, gets, or_raise, modify, raise_if,
  ◌>>=◌, ◌>>◌, Result-cases, hold_not_found, invalid_transition, key_error, arithmetic_error,
  runtime_error, value_error, audit_format_error, policy_unavailable, authorization_unavailable,
  assertion_error, index_error,
}
use razor_trust.Common.Dict.{Dict, lookup, insert, lookup-insert, lookup-empty}
use razor_trust.Common.Platform.{Platform, IsTotal}
use razor_trust.Domain.{
  resolved_decision, resolved_action, state_eq, DecisionResponse, EvidenceRecord,
  EvidenceSubmission, AnalystReviewRecord, HoldCreate, AnalystReviewSubmission, HoldCase,
  HoldEvaluationInput, HoldDecision, release, evidence_needed, HoldState, opened, awaiting_evidence,
  evidence_submitted, resolved, human_review, denied,
}
use razor_trust.Repository.Cases
use razor_trust.Repository.Submissions
use razor_trust.Repository.Reviews

module _ (p : Platform) (h : Hashing (Payload p.Float)) where
  open p use {Float}

  -- `id`, `id'` are the identifiers that `uuid4()` gives, `now` … the times.
  abbrev pub log_creation : HoldCase × Bool → (id now : ℕ) → Exec (World Float) (HoldCase × Bool)
  log_creation (hold, false) id now = pure (hold, false)
  log_creation (hold, true) id now = do
    head ←
        on_ledger
          (append h (entry_of hold.hold_id "hold-intake" "HOLD_CREATED" (hold_created hold) id now))
    pure (hold, true)

  unfoldable pub create_hold :
      HoldCreate → (fresh now now' id later : ℕ) → Exec (World Float) (HoldCase × Bool)
  create_hold r fresh now now' id later = do
    result ← on_repository (Cases.create r fresh now now')
    log_creation result id later

  abbrev log_evidence :
      ℕ → EvidenceRecord Float × Bool → (id now : ℕ) → Exec (World Float) (EvidenceRecord Float)
  log_evidence hold_id (e, false) id now = pure e
  log_evidence hold_id (e, true) id now = do
    head ← on_ledger (
        append h
          (entry_of hold_id "evidence-service" "EVIDENCE_SUBMITTED" (evidence_filed e) id now))
    pure e

  unfoldable pub submit_evidence :
      ℕ
      → EvidenceSubmission
      → (fresh now now' id later : ℕ) → Exec (World Float) (EvidenceRecord Float)
  submit_evidence hold_id x fresh now now' id later = do
    result ← on_repository (Submissions.submit_evidence p hold_id x fresh now now')
    log_evidence hold_id result id later

  abbrev review_entry :
      ℕ → String → AnalystReviewRecord Float → Payload Float → (id now : ℕ) → Entry (Payload Float)
  review_entry hold_id analyst_id r payload id now =
      record (entry_of hold_id analyst_id "ANALYST_OUTCOME_RECORDED" payload id now) {
        actor_type = "HUMAN";
        policy_version = some r.policy_reference;
      }

  -- The review is logged where it is new and has no head hash yet.
  abbrev log_review :
      ℕ
      → AnalystReviewSubmission Float
      → String
      → AnalystReviewRecord Float × Bool
      → (id now : ℕ) → Exec (World Float) (AnalystReviewRecord Float)
  log_review hold_id x analyst_id (r, false) id now = pure r
  log_review hold_id x analyst_id (r, true) id now =
      if not (same_digest r.audit_head_hash genesis_hash) then pure r else do
        action ← lift (resolved_action x)
        decision ← lift (resolved_decision x)
        ai ← on_repository (Cases.get_decision hold_id)
        head ← on_ledger (
            append h (
              review_entry hold_id analyst_id r (analyst_outcome r action decision ai.decision) id
                now))
        on_repository (Reviews.update_analyst_review_audit_hash hold_id head)

  unfoldable pub record_analyst_review :
      ℕ
      → AnalystReviewSubmission Float
      → String
      → (fresh now now' id later : ℕ) → Exec (World Float) (AnalystReviewRecord Float)
  record_analyst_review hold_id x analyst_id fresh now now' id later = do
    result ← on_repository (Reviews.record_analyst_review hold_id x analyst_id fresh now now')
    log_review hold_id x analyst_id result id later

module _ (p : Platform) (parts : Parts p) where
  open p use {Float}

  -- Only an OPEN hold is scored.
  abbrev evaluate_hold :
      ℕ
      → HoldEvaluationInput Float
      → Stamps
      → HoldCase
      → Exec (World Float) (DecisionResponse Float)
  evaluate_hold hold_id x st hold =
      if not (state_eq hold.state opened)
      then on_repository (Cases.get_decision hold_id)
      else score p parts hold x none st

  unfoldable pub evaluate :
      ℕ → HoldEvaluationInput Float → Stamps → Exec (World Float) (DecisionResponse Float)
  evaluate hold_id x st = do
    hold ← on_repository (Cases.get hold_id)
    evaluate_hold hold_id x st hold

  unfoldable pub rescore : ℕ → Stamps → Exec (World Float) (DecisionResponse Float)
  rescore hold_id st = do
    hold ← on_repository (Cases.get hold_id)
    raise_if (not (state_eq hold.state evidence_submitted) || not (hold.evidence_round == 1))
        invalid_transition
    x ← on_repository (Cases.get_evaluation_input hold_id)
    e ← on_repository (Submissions.get_evidence hold_id)
    score p parts hold x (some e) st
