-- ===== src/Database/Holds.antt =====
-- Holds and snapshots in `SqlHoldRepository` (src/razortrust/database.py). A session is a transaction: what
-- raises before its commit writes nothing.
use razor_trust.Repository.Cases.{new_case}
use razor_trust.Database.Queries.{get_hold_row, find_hold, latest_snapshot, find_request}
use razor_trust.Timeline.Latest.{keep_if, sort_by}
use razor_trust.Database.Tables.{FeatureSnapshotRow, Database}
use razor_trust.Common.{
  ℕ, String, Bool, true, false, ◌||◌, Option, none, some, List, [], ◌∷◌, ◌++◌, str_eq, leb,
  if◌then◌else◌, is_some, take,
}
use razor_trust.Common.Exec.{
  other_error, ok, Exec, pure, gets, or_raise, modify, ◌>>=◌, ◌>>◌, invalid_transition,
}
use razor_trust.Domain.{FeatureVector, HoldCase, HoldCreate, HoldEvaluationInput}

abbrev pub of_merchant : Option String → HoldCase → Bool
of_merchant none hold = true
of_merchant (some merchant_id) hold = str_eq hold.merchant_id merchant_id

module _ {F X : Type 0} where
  -- The constraints of `hold_cases`: the primary key and the unique request.
  abbrev pub conflicts : HoldCase → Database F X → Bool
  conflicts row s =
      is_some (find_hold row.hold_id s.holds) || is_some (find_request row.request_id s.holds)

  abbrev pub with_hold : HoldCase → Database F X → Database F X
  with_hold row s = record s { holds = s.holds ++ row ∷ [] }

  -- After the `IntegrityError`
  abbrev pub reread : HoldCreate → Exec (Database F X) (HoldCase × Bool)
  reread r = do
    existing ←
        or_raise (find_request r.request_id (← gets (λ s. s.holds))) (other_error "IntegrityError")
    pure (existing, false)

  abbrev pub commit_hold : HoldCreate → HoldCase → Exec (Database F X) (HoldCase × Bool)
  commit_hold r row s = if conflicts row s then reread r s else (ok (row, true), with_hold row s)

  abbrev pub create_row :
      HoldCreate
      → (fresh now : ℕ) (others : Database F X → Database F X) → Option HoldCase
      → Exec (Database F X) (HoldCase × Bool)
  create_row r fresh now others (some existing) = pure (existing, false)
  create_row r fresh now others none = do modify others; commit_hold r (new_case r fresh now now)

  -- `others` is what other sessions commit between the query and the commit of this one.
  unfoldable pub create :
      HoldCreate
      → (fresh now : ℕ) (others : Database F X → Database F X)
      → Exec (Database F X) (HoldCase × Bool)
  create r fresh now others = do
    existing ← gets λ s. find_request r.request_id s.holds
    create_row r fresh now others existing

  unfoldable pub get : ℕ → Exec (Database F X) HoldCase
  get hold_id = get_hold_row hold_id

  unfoldable pub list_holds : Option String → ℕ → Exec (Database F X) (List HoldCase)
  list_holds merchant_id limit = gets λ s.
      take limit
        (sort_by (λ x y. leb y.updated_at x.updated_at) (keep_if (of_merchant merchant_id) s.holds))

  abbrev pub with_snapshot : FeatureSnapshotRow F → Database F X → Database F X
  with_snapshot row s = record s { snapshots = s.snapshots ++ row ∷ [] }

  unfoldable pub save_feature_snapshot :
      ℕ → HoldEvaluationInput F → FeatureVector F → (now : ℕ) → Exec (Database F X) (Unit {0})
  save_feature_snapshot hold_id evaluation_input features now = do
    hold ← get_hold_row hold_id
    modify (
        with_snapshot (record {
          hold_id = hold_id;
          feature_schema_version = "1.0.0";
          as_of_timestamp = hold.triggered_at;
          evaluation_input = evaluation_input;
          features = features;
          created_at = now;
        }))

  unfoldable pub get_evaluation_input : ℕ → Exec (Database F X) (HoldEvaluationInput F)
  get_evaluation_input hold_id = do
    row ← or_raise (latest_snapshot hold_id (← gets (λ s. s))) invalid_transition
    pure row.evaluation_input
