-- ===== src/Database/Queries.antt =====
-- The queries of src/razortrust/database.py.
use razor_trust.Timeline.Latest.{keep_if}
use razor_trust.Database.Tables.{FeatureSnapshotRow, ModelDecisionRow, AuditEventRow, Database}
use razor_trust.Common.{ℕ, Bool, Option, none, some, List, [], ◌∷◌, ltb, ◌==◌, if◌then◌else◌}
use razor_trust.Common.Exec.{Exec, gets, or_raise, ◌>>=◌, hold_not_found}
use razor_trust.Domain.{HoldCase}

module _ {A : Type 0} where
  -- `session.scalar(select(…).where(…))`
  unfoldable pub first_where : (A → Bool) → List A → Option A
  first_where p [] = none
  first_where p (x ∷ xs) = if p x then some x else first_where p xs

  -- `order_by(….desc()).limit(1)`; of equal keys the database may give any, here the last row
  unfoldable pub latest_by : (A → ℕ) → List A → Option A
  latest_by key [] = none
  latest_by key (x ∷ xs) = elim (latest_by key xs) [
    | none ↦ some x
    | some y ↦ some (if ltb (key y) (key x) then x else y)
  ]

-- `UPDATE hold_cases` of the row with this key
unfoldable pub replace_hold : HoldCase → List HoldCase → List HoldCase
replace_hold hold [] = []
replace_hold hold (x ∷ xs) =
    let rest = replace_hold hold xs in if x.hold_id == hold.hold_id then hold ∷ rest else x ∷ rest

abbrev pub find_hold : ℕ → List HoldCase → Option HoldCase
find_hold hold_id = first_where (λ h. h.hold_id == hold_id)

abbrev pub find_request : ℕ → List HoldCase → Option HoldCase
find_request request_id = first_where (λ h. h.request_id == request_id)

module _ {F X : Type 0} where
  -- `_get_hold_row`
  unfoldable pub get_hold_row : ℕ → Exec (Database F X) HoldCase
  get_hold_row hold_id = do or_raise (find_hold hold_id (← gets (λ s. s.holds))) hold_not_found

  abbrev pub events_of_case : ℕ → List (AuditEventRow F X) → List (AuditEventRow F X)
  events_of_case case_id = keep_if (λ r. r.event.case_id == case_id)

  unfoldable pub latest_event : ℕ → Database F X → Option (AuditEventRow F X)
  latest_event case_id s =
      latest_by (λ r. r.event.sequence_no) (events_of_case case_id s.audit_events)

  unfoldable pub latest_decision : ℕ → Database F X → Option (ModelDecisionRow F)
  latest_decision hold_id s =
      latest_by (λ r. r.created_at) (keep_if (λ r. r.hold_id == hold_id) s.model_decisions)

  unfoldable pub latest_snapshot : ℕ → Database F X → Option (FeatureSnapshotRow F)
  latest_snapshot hold_id s =
      latest_by (λ r. r.created_at) (keep_if (λ r. r.hold_id == hold_id) s.snapshots)
