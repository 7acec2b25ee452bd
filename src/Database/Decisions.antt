-- ===== src/Database/Decisions.antt =====
-- Decisions and their audit trail in `SqlHoldRepository` (src/razortrust/database.py).
use razor_trust.Timeline.Latest.{sort_by}
use razor_trust.Audit.{hash_dict, genesis_hash}
use razor_trust.Database.Queries.{
  events_of_case, latest_event, latest_decision, get_hold_row, replace_hold,
}
use razor_trust.Database.Tables.{
  OutboxEventRow, risk_decision, given_trace, EventPayload, SqlEvent, AuditEventRow, TraceId,
  Database, SqlHashing,
}
use razor_trust.Common.{
  ℕ, ◌+◌, String, Option, none, some, List, [], ◌∷◌, ◌++◌, leb, ◌==◌, if◌then◌else◌,
}
use razor_trust.Common.Exec.{
  Result, ok, err, Exec, pure, lift, gets, or_raise, modify, ◌>>=◌, ◌>>◌, invalid_transition,
}
use razor_trust.Domain.{
  HoldCase, DecisionResponse, escalate, HoldDecision, release, evidence_needed, HoldState,
  awaiting_evidence, human_review,
}

unfoldable pub state_for_decision : HoldDecision → (evidence_round : ℕ) → Result HoldState
state_for_decision release evidence_round = ok human_review
state_for_decision escalate evidence_round = ok human_review
state_for_decision evidence_needed evidence_round =
    if evidence_round == 1 then err invalid_transition else ok awaiting_evidence

abbrev pub moved_hold : HoldState → (now : ℕ) → HoldCase → HoldCase
moved_hold state now hold = record hold { state = state; updated_at = now }

module _ {F X : Type 0} where
  abbrev pub with_decision : HoldCase → DecisionResponse F → Database F X → Database F X
  with_decision hold d s = record s {
    holds = replace_hold hold s.holds;
    model_decisions =
        s.model_decisions
        ++ record { hold_id = d.hold_id; decision_payload = d; created_at = d.created_at } ∷ [];
  }

  unfoldable pub save_decision : DecisionResponse F → (now : ℕ) → Exec (Database F X) HoldCase
  save_decision d now = do
    hold ← get_hold_row d.hold_id
    state ← lift (state_for_decision d.decision hold.evidence_round)
    modify (with_decision (moved_hold state now hold) d)
    pure (moved_hold state now hold)

  -- `latest.record_hash if latest is not None else GENESIS_HASH`
  abbrev pub previous_of : Option (AuditEventRow F X) → List ℕ
  previous_of none = genesis_hash
  previous_of (some row) = row.record_hash

  abbrev pub next_sequence : Option (AuditEventRow F X) → ℕ
  next_sequence none = 1
  next_sequence (some row) = row.event.sequence_no + 1

  abbrev pub next_event :
      (event_id case_id : ℕ)
      → TraceId
      → (now : ℕ) → EventPayload F X
      → Option (AuditEventRow F X)
      → SqlEvent F X
  next_event event_id case_id trace_id now payload latest = record {
    event_id = event_id;
    case_id = case_id;
    sequence_no = next_sequence latest;
    trace_id = trace_id;
    timestamp = now;
    payload = payload;
  }

  abbrev pub outbox_row : (topic : String) → AuditEventRow F X → OutboxEventRow F X
  outbox_row topic row = record {
    topic = topic;
    payload = row;
    created_at = row.event.timestamp;
    published_at = none;
  }

  -- The rows of `audit_events` and `outbox_events` that belong together.
  abbrev pub with_event : (topic : String) → AuditEventRow F X → Database F X → Database F X
  with_event topic row s = record s {
    audit_events = s.audit_events ++ row ∷ [];
    outbox_events = s.outbox_events ++ outbox_row topic row ∷ [];
  }

  unfoldable pub get_decision : ℕ → Exec (Database F X) (DecisionResponse F)
  get_decision hold_id = do
    hold ← get_hold_row hold_id
    row ← or_raise (latest_decision hold_id (← gets (λ s. s))) invalid_transition
    pure row.decision_payload

  unfoldable pub get_audit_records : ℕ → Exec (Database F X) (List (AuditEventRow F X))
  get_audit_records hold_id = do
    hold ← get_hold_row hold_id
    gets λ s.
        sort_by (λ x y. leb x.event.sequence_no y.event.sequence_no)
          (events_of_case hold_id s.audit_events)

  module _ (h : SqlHashing F X) where
    abbrev pub hash_row : SqlEvent F X → List ℕ → Result (List ℕ)
    hash_row = hash_dict h.canonical h.sha256_hex

    abbrev pub audit_row : SqlEvent F X → (previous_hash record_hash : List ℕ) → AuditEventRow F X
    audit_row e previous_hash record_hash = record {
      event = e;
      previous_hash = previous_hash;
      record_hash = record_hash;
    }

    unfoldable pub save_decision_and_audit :
        DecisionResponse F
        → (audit_payload : X) (trace_id : String) (event_id now : ℕ)
        → Exec (Database F X) (DecisionResponse F)
    save_decision_and_audit d audit_payload trace_id event_id now = do
      hold ← get_hold_row d.hold_id
      latest ← gets (latest_event d.hold_id)
      let event =
          next_event event_id d.hold_id (given_trace trace_id) now (risk_decision audit_payload)
            latest
      record_hash ← lift (hash_row event (previous_of latest))
      state ← lift (state_for_decision d.decision hold.evidence_round)
      modify
          (with_decision (moved_hold state now hold) (record d { audit_head_hash = record_hash }))
      modify (
          with_event "razortrust.audit.risk-decision"
            (audit_row event (previous_of latest) record_hash))
      pure (record d { audit_head_hash = record_hash })
