-- ===== src/Domain/Review.antt =====
-- Human reviews (src/razortrust/domain.py).
use Prim.Native.String.{count}
use razor_trust.Common.{
  ℕ, String, arith, ◌≡◌, refl, ◌↔◌, ◌⊎◌, Bool, true, false, not, ◌&&◌, ◌||◌, Option, none, some,
  List, [], ◌∷◌, is_some, ltb, ◌==◌, str_eq, if◌then◌else◌,
}
use razor_trust.Common.Exec.{Result, and_then, ok, err, assertion_error, value_error}
use razor_trust.Domain.Enums.{
  HoldDecision, release, evidence_needed, AnalystOutcome, cleared, fraud_confirmed, continue_hold,
  HumanReviewAction, approve_release, request_evidence, override_ai, TrainingLabel,
}

pub record AnalystReviewSubmission (F : Type 0) : Type 0 where
  pub request_id : ℕ
  pub outcome : Option AnalystOutcome
  pub action : Option HumanReviewAction
  pub authorized_decision : Option HoldDecision
  pub reason_code : String
  pub rationale : String
  pub decided_at : ℕ
  pub agent_id : Option String
  pub agent_session : Option String
  pub delegated_permissions : List String
  pub authorized_amount : Option F
  pub authorized_item : Option String
  pub infrastructure_provider : Option String
  pub transaction_identity : Option String

abbrev pub is_override : Option HumanReviewAction → Bool
is_override (some override_ai) = true
is_override _ = false

abbrev pub is_approval : Option HumanReviewAction → Bool
is_approval (some approve_release) = true
is_approval _ = false

abbrev pub is_fraud_confirmed : Option AnalystOutcome → Bool
is_fraud_confirmed (some fraud_confirmed) = true
is_fraud_confirmed _ = false

abbrev mem_str : String → List String → Bool
mem_str x [] = false
mem_str x (y ∷ ys) = str_eq x y || mem_str x ys

-- `len(set(xs)) != len(xs)`
unfoldable pub has_duplicates : List String → Bool
has_duplicates [] = false
has_duplicates (x ∷ xs) = mem_str x xs || has_duplicates xs

-- `any(not value or len(value) > 128 for value in xs)`
unfoldable pub has_bad_length : List String → Bool
has_bad_length [] = false
has_bad_length (x ∷ xs) = count x == 0 || ltb 128 (count x) || has_bad_length xs

abbrev check : Bool → Result (Unit {0}) → Result (Unit {0})
check b rest = if b then err value_error else rest

-- The validator runs after the fields are parsed; a `ValueError` refuses the submission.
module _ {F : Type 0} where
  unfoldable pub validate_human_action : AnalystReviewSubmission F → Result (Unit {0})
  validate_human_action s =
      check (if is_some s.outcome then is_some s.action else not (is_some s.action)) (
        check (is_override s.action && not (is_some s.authorized_decision)) (
          check (not (is_override s.action) && is_some s.authorized_decision) (
            check (has_duplicates s.delegated_permissions)
              (check (has_bad_length s.delegated_permissions) (ok tt)))))

abbrev pub legacy_action : AnalystOutcome → HumanReviewAction
legacy_action cleared = approve_release
legacy_action fraud_confirmed = HumanReviewAction.escalate
legacy_action continue_hold = HumanReviewAction.escalate

-- `self.action` if it is given, else the `legacy` table at `self.outcome`
abbrev choose_action : Option HumanReviewAction → Option AnalystOutcome → Result HumanReviewAction
choose_action (some a) o = ok a
choose_action none (some o) = ok (legacy_action o)
choose_action none none = err assertion_error

abbrev decide_action : Option HoldDecision → HumanReviewAction → Result HoldDecision
decide_action d approve_release = ok release
decide_action d request_evidence = ok evidence_needed
decide_action (some d) override_ai = ok d
decide_action none override_ai = err assertion_error
decide_action d HumanReviewAction.escalate = ok HoldDecision.escalate

module _ {F : Type 0} where
  unfoldable pub resolved_action : AnalystReviewSubmission F → Result HumanReviewAction
  resolved_action s = choose_action s.action s.outcome

  unfoldable pub resolved_decision : AnalystReviewSubmission F → Result HoldDecision
  unfolding resolved_action
  resolved_decision s = and_then (resolved_action s) (decide_action s.authorized_decision)

pub record AnalystReviewRecord (F : Type 0) : Type 0 where
  pub review_id : ℕ
  pub hold_id : ℕ
  pub analyst_id : String
  pub submission : AnalystReviewSubmission F
  pub training_label : TrainingLabel
  pub policy_reference : String
  pub audit_head_hash : List ℕ
  pub created_at : ℕ

abbrev Resolves : Option HumanReviewAction → Option AnalystOutcome → Option HoldDecision → Type 0
Resolves a o w =
    (d : HoldDecision) × (and_then (choose_action a o) (decide_action w) ≡ ok d)
    × ((d ≡ release) ↔ ((a ≡ some approve_release) ⊎ (o ≡ some cleared) ⊎ (w ≡ some release)))

resolution :
    (a : Option HumanReviewAction) (o : Option AnalystOutcome) (w : Option HoldDecision)
    → (if is_some o then is_some a else not (is_some a)) ≡ false
    → (is_override a && not (is_some w)) ≡ false
    → (not (is_override a) && is_some w) ≡ false
    → Resolves a o w
resolution none none w one over plain = cc
resolution none (some cleared) none one over plain = (release, refl, ground arith)
resolution none (some fraud_confirmed) none one over plain =
    (HoldDecision.escalate, refl, ground arith)
resolution none (some continue_hold) none one over plain =
    (HoldDecision.escalate, refl, ground arith)
resolution none (some _) (some d) one over plain = cc
resolution (some a) (some o) w one over plain = cc
resolution (some approve_release) none none one over plain = (release, refl, ground arith)
resolution (some request_evidence) none none one over plain = (evidence_needed, refl, ground arith)
resolution (some HumanReviewAction.escalate) none none one over plain =
    (HoldDecision.escalate, refl, ground arith)
resolution (some override_ai) none none one over plain = cc
resolution (some override_ai) none (some d) one over plain = (d, refl, ground arith)
resolution (some _) none (some d) one over plain = cc

-- The assertions of `resolved_decision` never fail on an accepted submission, and it releases
-- exactly when the reviewer approved, cleared the case, or overrode the AI by RELEASE.
pub resolved_decision_total :
    {F : Type 0} (s : AnalystReviewSubmission F)
    → validate_human_action s ≡ ok tt
    → (d : HoldDecision) × (resolved_decision s ≡ ok d)
      × ((d ≡ release) ↔ (
          (s.action ≡ some approve_release)
          ⊎ (s.outcome ≡ some cleared)
          ⊎ (s.authorized_decision ≡ some release)))
unfolding validate_human_action resolved_decision
resolved_decision_total s h =
    resolution s.action s.outcome s.authorized_decision (ground arith) (ground arith) (ground arith)
