-- ===== src/Tests/Rules.antt =====
-- The theorems about the pure rules: reviews, policy, costs, evidence, guidance and access.
use mathlib.Core.List.{Memᴰ}
use razor_trust.Security.{verify_manifest}
use razor_trust.Domain.{text}
use razor_trust.Costs.Choice.{choose_total}
use razor_trust.Evidence.Verdicts.{FitsReason, IsAttested, signed_verdict_iff}
use razor_trust.Authorization.Access.{actions_of, authorize_iff, merchant_isolation}
use razor_trust.Guidance.Shape.{build_merchant_guidance_lem, IsWellFormed}
use razor_trust.Repository.Submissions.{evidence_type_of, expected_evidence_type, evidence_record}
use razor_trust.Policy.Guardrails.{check-release_iff, MayRelease, check-evidence_needed_iff}
use razor_trust.Repository.Cases.{new_case}
use razor_trust.Policy.{check}
use razor_trust.Guidance.{build_merchant_guidance}
use razor_trust.Evidence.{load_keys, get_key, get_text, Attestation, signed_assess}
use razor_trust.Costs.{
  expected_cost, candidate, choose, has_negative_in, has_negative, wrong_width, canonical_order,
  same_decisions, validate_shape_and_order, CostMatrixArtifact,
}
use razor_trust.Security.{Crypto}
use razor_trust.Authorization.{has_role, allowed_roles, AuthorizationRequest, authorize, Principal}
use razor_trust.Common.{ℕ, String, ◌≡◌, refl, ◌≢◌, ◌↔◌, ◌⊎◌, true, false, none, some, List, [], ◌∷◌}
use razor_trust.Common.Exec.{ok}
use razor_trust.Domain.{
  has_bad_length, has_duplicates, contradictory, supported, resolved_decision_total, cleared,
  approve_release, resolved_decision, merchant, risk_analyst, MerchantGuidance, EvidenceRecord,
  FeatureContribution, PolicyCheck, validate_human_action, HoldCase, HoldDecision, release,
  evidence_needed,
}
use razor_trust.Tests.Fixtures.{
  naturals, request, likely_safe, limits, approval, invoice, contribution, prediction,
}

resolved_decision_total_example :
    (d : HoldDecision) × (resolved_decision approval ≡ ok d)
    × ((d ≡ release) ↔ (
        (some approve_release ≡ some approve_release)
        ⊎ (none ≡ some cleared)
        ⊎ (none ≡ some release)))
unfolding validate_human_action has_duplicates has_bad_length
resolved_decision_total_example = resolved_decision_total approval refl

abbrev release_check : PolicyCheck ℕ
release_check = record {
  hold_id = 7;
  candidate_decision = release;
  probabilities = likely_safe;
  thresholds = limits;
  novelty_override = false;
  evidence_round = 0;
  model_version = "m@1";
  policy_version = "hold-policy@1";
  system_error = false;
  evidence_assessment = none;
  evidence_release_risk_cap = 35;
}

check-release_iff_example :
    ((check naturals release_check).allowed_decision ≡ release) ↔ MayRelease naturals release_check
check-release_iff_example = check-release_iff naturals release_check

check-evidence_needed_iff_example :
    ((check naturals release_check).allowed_decision ≡ evidence_needed) ↔ (
      (release ≡ evidence_needed)
      × (release_check.evidence_round ≡ 0)
      × (false ≡ false)
      × (false ≡ false))
check-evidence_needed_iff_example = check-evidence_needed_iff naturals release_check

abbrev pub costs : CostMatrixArtifact ℕ
costs = record {
  schema_version = "1";
  cost_matrix_version = "1";
  currency = "UNITS";
  actions = canonical_order;
  true_states = canonical_order;
  matrix = (0 ∷ 20 ∷ 100 ∷ []) ∷ (5 ∷ 2 ∷ 10 ∷ []) ∷ (30 ∷ 12 ∷ 1 ∷ []) ∷ [];
}

choose_total_example :
    (x : ℕ) × (choose naturals costs prediction 0 limits
      ≡ ok (candidate naturals prediction 0 limits, x))
    × (expected_cost naturals costs prediction (candidate naturals prediction 0 limits) ≡ ok x)
unfolding validate_shape_and_order same_decisions wrong_width has_negative has_negative_in
choose_total_example = choose_total naturals costs refl prediction 0 limits

abbrev accepting : Crypto
accepting = record {
  PublicKey = List ℕ;
  b64decode = λ s. some (1 ∷ []);
  from_public_bytes = λ b. some b;
  verify = λ k s m. true;
}

abbrev held : HoldCase
held = new_case request 7 1001 1002

abbrev filed : EvidenceRecord ℕ
filed = evidence_record naturals held invoice 7 12 1031

abbrev keys : List (String × String)
keys = ("k1", "AQ==") ∷ []

-- A provider's key and signature in the metadata.
abbrev attested : EvidenceRecord ℕ
attested = record filed {
  submission = record invoice {
    metadata =
        ("attestation_key_id", text "k1")
        ∷ ("attestation_signature", text "c2ln")
        ∷ ("subject_merchant_id", text "m1")
        ∷ [];
  };
}

abbrev plain_bytes : Attestation → List ℕ
plain_bytes a = []

signed_verdict_iff_example :
    (((signed_assess naturals accepting plain_bytes keys held attested).verdict ≡ supported) ↔ (
      IsAttested naturals accepting plain_bytes keys attested.submission
      × FitsReason naturals held attested
      × (get_text "subject_merchant_id" attested.submission.metadata ≡ held.merchant_id)
      × (naturals.le attested.recency_hours (naturals.lit 168 0) ≡ true)))
    × (((signed_assess naturals accepting plain_bytes keys held attested).verdict ≡ contradictory)
        ↔ (IsAttested naturals accepting plain_bytes keys attested.submission
            × (¬ FitsReason naturals held attested
                ⊎ (get_text "subject_merchant_id" attested.submission.metadata
                    ≢ held.merchant_id))))
signed_verdict_iff_example = signed_verdict_iff naturals accepting plain_bytes keys held attested

attested_supported :
    (signed_assess naturals accepting plain_bytes keys held attested).verdict ≡ supported
unfolding signed_assess get_text get_key load_keys verify_manifest expected_evidence_type
    evidence_type_of
attested_supported = refl

abbrev top : List (FeatureContribution ℕ)
top = contribution ∷ []

build_merchant_guidance_lem_example :
    ((evidence_needed ≢ evidence_needed)
      × (build_merchant_guidance evidence_needed top 1010 48 ≡ none))
    ⊎ ((evidence_needed ≡ evidence_needed)
        × ((g : MerchantGuidance) × (build_merchant_guidance evidence_needed top 1010 48 ≡ some g)
            × IsWellFormed g 1010 48))
build_merchant_guidance_lem_example = build_merchant_guidance_lem top 1010 48 evidence_needed

abbrev seller : Principal
seller = record { id = "u1"; role = merchant; merchant_id = some "m1" }

abbrev viewing : AuthorizationRequest
viewing = record {
  principal = seller;
  action = "VIEW_HOLD";
  resource_type = "hold";
  resource_id = some "7";
  merchant_id = some "m1";
}

abbrev analyst : Principal
analyst = record { id = "a1"; role = risk_analyst; merchant_id = none }

abbrev judging : AuthorizationRequest
judging = record {
  principal = analyst;
  action = "RECORD_ANALYST_OUTCOME";
  resource_type = "hold";
  resource_id = some "7";
  merchant_id = some "m1";
}

merchant_isolation_example : (m : String) × (some "m1" ≡ some m) × (some "m1" ≡ some m) × (m ≢ "")
unfolding authorize allowed_roles has_role
merchant_isolation_example = merchant_isolation viewing refl refl

authorize_iff_example : ((authorize viewing).allowed ≡ true) ↔ (
    Memᴰ "VIEW_HOLD" (actions_of merchant)
    × ((merchant ≢ merchant)
        ⊎ ((m : String) × (some "m1" ≡ some m) × (some "m1" ≡ some m) × (m ≢ ""))))
authorize_iff_example = authorize_iff viewing
