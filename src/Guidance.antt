-- ===== src/Guidance.antt =====
-- Merchant guidance: src/razortrust/merchant_guidance.py.
pub mod Tables
pub mod Shape
use razor_trust.Common.{
  ℕ, zero, suc, ◌+◌, ◌-◌, ◌*◌, ◌/◌, ◌%◌, ◌≤◌, ◌<◌, String, ◌≡◌, refl, sym, ap, ◌∙◌, ◌≢◌, ◌↔◌, ◌⊎◌,
  inl, inr, Bool, true, false, not, ◌&&◌, ◌||◌, Option, none, some, List, [], ◌∷◌, ◌++◌, map, arith,
  str_eq, eq_iff, ltb, leb, ◌==◌, if◌then◌else◌, is_some, ==_iff, ==_refl, Bool-cases, Option-cases,
  length, take, replicate, last, length-append, All, All-append, All_mono,
}
use razor_trust.Common.Exec.{
  Exception, Result, ok, err, and_then, Exec, pure, raise, lift, gets, or_raise, modify, raise_if,
  ◌>>=◌, ◌>>◌, Result-cases, hold_not_found, invalid_transition, key_error, arithmetic_error,
  runtime_error, value_error, audit_format_error, policy_unavailable, authorization_unavailable,
  assertion_error, index_error,
}
use razor_trust.Common.Dict.{Dict, lookup, insert, lookup-insert, lookup-empty}
use razor_trust.Common.Platform.{Platform, IsTotal}
use razor_trust.Domain.{
  decision_eq, evidence_type_eq, MerchantGuidance, other, FeatureContribution, EvidenceType,
  HoldDecision, release, evidence_needed, HoldState, opened, awaiting_evidence, evidence_submitted,
  resolved, human_review, denied,
}
use razor_trust.Guidance.Tables.{requirement, feature_evidence, feature_messages}
use Prim.Native.String.{◌++◌ as str_append}

-- `table.get(key)`
unfoldable pub find {ℓ} : {V : Type ℓ} → String → List (String × V) → Option V
find k [] = none
find k ((j, v) ∷ t) = if str_eq j k then some v else find k t

abbrev or_else {ℓ} : {V : Type ℓ} → Option V → V → V
or_else none d = d
or_else (some v) d = v

-- `_FEATURE_MESSAGES.get(feature, f"The {feature} signal needs verification.")`
pub message_of : String → String
message_of feature =
    or_else (find feature feature_messages)
      (str_append "The " (str_append feature " signal needs verification."))

pub evidence_of : String → EvidenceType
evidence_of feature = or_else (find feature feature_evidence) other

pub has_type : EvidenceType → List EvidenceType → Bool
has_type t [] = false
has_type t (x ∷ xs) = evidence_type_eq x t || has_type t xs

-- The loop that appends each type once; `seen` is `evidence_types` so far.
pub collect_types : List EvidenceType → List String → List EvidenceType
collect_types seen [] = seen
collect_types seen (f ∷ fs) =
    collect_types (if has_type (evidence_of f) seen then seen else seen ++ evidence_of f ∷ []) fs

abbrev default_reasons : List String → List String
default_reasons [] =
    "Recent transaction activity differs materially from your established baseline." ∷ []
default_reasons (r ∷ rs) = r ∷ rs

abbrev default_types : List EvidenceType → List EvidenceType
default_types [] = other ∷ []
default_types (t ∷ ts) = t ∷ ts

-- `timedelta(hours=n)` in microseconds
abbrev hours : ℕ → ℕ
hours n = n * 3600000000

module _ {F : Type 0} where
  abbrev pub selected : List (FeatureContribution F) → List String
  selected top = map (λ c. c.feature) (take 3 top)

  abbrev pub guidance_for : List (FeatureContribution F) → ℕ → ℕ → MerchantGuidance
  guidance_for top created_at deadline_hours = record {
    summary = "Your settlement is temporarily held while we verify unusual recent activity.";
    reasons = default_reasons (map message_of (selected top));
    required_evidence = map requirement (default_types (collect_types [] (selected top)));
    submit_by = created_at + hours deadline_hours;
  }

  unfoldable pub build_merchant_guidance :
      HoldDecision → List (FeatureContribution F) → ℕ → ℕ → Option MerchantGuidance
  build_merchant_guidance decision top created_at deadline_hours =
      if not (decision_eq decision evidence_needed)
      then none
      else some (guidance_for top created_at deadline_hours)
