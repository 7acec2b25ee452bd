-- ===== src/Repository/Cases.antt =====
-- Holds, snapshots and decisions in `InMemoryHoldRepository` (src/razortrust/repository.py).
use razor_trust.Common.{
  ℕ, Bool, true, false, not, ◌&&◌, Option, none, some, List, [], ◌∷◌, is_some, ◌==◌, str_eq, take,
  leb, String, if◌then◌else◌,
}
use razor_trust.Common.Dict.{Dict, lookup, insert}
use razor_trust.Common.Exec.{
  Exec, pure, gets, or_raise, modify, raise_if, ◌>>=◌, ◌>>◌, hold_not_found, invalid_transition,
  key_error,
}
use razor_trust.Domain.{
  evidence_needed, opened, awaiting_evidence, human_review, decision_eq, HoldCreate, HoldCase,
  HoldEvaluationInput, FeatureVector, DecisionResponse,
}
use razor_trust.Repository.State.{Repository}

abbrev pub new_case : HoldCreate → (fresh now now' : ℕ) → HoldCase
new_case r fresh now now' = record {
  hold_id = fresh;
  request_id = r.request_id;
  merchant_id = r.merchant_id;
  source_event_id = r.source_event_id;
  triggered_at = r.triggered_at;
  reason_code = r.reason_code;
  state = opened;
  evidence_round = 0;
  created_at = now;
  updated_at = now';
}

-- `merchant_id is None or hold.merchant_id == merchant_id`
abbrev is_listed : Option String → HoldCase → Bool
is_listed none hold = true
is_listed (some merchant_id) hold = str_eq hold.merchant_id merchant_id

pub listed : Option String → Dict HoldCase → List HoldCase
listed m [] = []
listed m ((k, hold) ∷ d) = let rest = listed m d in if is_listed m hold then hold ∷ rest else rest

-- `sorted(cases, key=updated_at, reverse=True)`, which keeps the order of equal keys
pub insert_by_updated : HoldCase → List HoldCase → List HoldCase
insert_by_updated x [] = x ∷ []
insert_by_updated x (y ∷ ys) =
    if leb y.updated_at x.updated_at then x ∷ y ∷ ys else y ∷ insert_by_updated x ys

pub newest_first : List HoldCase → List HoldCase
newest_first [] = []
newest_first (x ∷ xs) = insert_by_updated x (newest_first xs)

module _ {F : Type 0} where
  -- A new case is stored, and indexed by its request.
  abbrev pub created : HoldCase → Repository F → Repository F
  created hold s = record s {
    cases = insert hold.hold_id hold s.cases;
    request_index = insert hold.request_id hold.hold_id s.request_index;
  }

  abbrev create_new :
      HoldCreate → (fresh now now' : ℕ) → Option ℕ → Exec (Repository F) (HoldCase × Bool)
  create_new r fresh now now' (some id) = do
    hold ← or_raise (lookup id (← gets (λ s. s.cases))) key_error
    pure (hold, false)
  create_new r fresh now now' none = do
    modify (created (new_case r fresh now now'))
    pure (new_case r fresh now now', true)

  unfoldable pub create : HoldCreate → (fresh now now' : ℕ) → Exec (Repository F) (HoldCase × Bool)
  create r fresh now now' = do
    existing_id ← gets λ s. lookup r.request_id s.request_index
    create_new r fresh now now' existing_id

  unfoldable pub get : ℕ → Exec (Repository F) HoldCase
  get hold_id = do or_raise (lookup hold_id (← gets (λ s. s.cases))) hold_not_found

  unfoldable pub save_feature_snapshot :
      ℕ → HoldEvaluationInput F → FeatureVector F → Exec (Repository F) (Unit {0})
  save_feature_snapshot hold_id input features = do
    raise_if (not (is_some (lookup hold_id (← gets (λ s. s.cases))))) hold_not_found
    modify λ s. record s {
      evaluation_inputs = insert hold_id input s.evaluation_inputs;
      features = insert hold_id features s.features;
    }

  unfoldable pub get_evaluation_input : ℕ → Exec (Repository F) (HoldEvaluationInput F)
  get_evaluation_input hold_id = do
    or_raise (lookup hold_id (← gets (λ s. s.evaluation_inputs))) invalid_transition

  -- The object in `_cases` is assigned to in place.
  abbrev pub decided_case : DecisionResponse F → ℕ → HoldCase → HoldCase
  decided_case d now hold = record hold {
    state = if decision_eq d.decision evidence_needed then awaiting_evidence else human_review;
    updated_at = now;
  }

  abbrev pub decided : DecisionResponse F → HoldCase → Repository F → Repository F
  decided d hold s = record s {
    cases = insert d.hold_id hold s.cases;
    decisions = insert d.hold_id d s.decisions;
  }

  unfoldable pub save_decision : DecisionResponse F → ℕ → Exec (Repository F) HoldCase
  save_decision d now = do
    hold ← or_raise (lookup d.hold_id (← gets (λ s. s.cases))) hold_not_found
    raise_if (decision_eq d.decision evidence_needed && hold.evidence_round == 1) invalid_transition
    modify (decided d (decided_case d now hold))
    pure (decided_case d now hold)

  unfoldable pub get_decision : ℕ → Exec (Repository F) (DecisionResponse F)
  get_decision hold_id = do
    raise_if (not (is_some (lookup hold_id (← gets (λ s. s.cases))))) hold_not_found
    or_raise (lookup hold_id (← gets (λ s. s.decisions))) invalid_transition

  -- A limit is not negative: the API accepts 1 to 500.
  unfoldable pub list_holds : Option String → ℕ → Exec (Repository F) (List HoldCase)
  unfolding listed newest_first insert_by_updated
  list_holds merchant_id limit = do gets λ s. take limit (newest_first (listed merchant_id s.cases))
