-- ===== src/Evidence.antt =====
-- The evidence verifiers of src/razortrust/evidence.py.
pub mod Keys
pub mod Verdicts
use razor_trust.Repository.Submissions.{expected_evidence_type, type_matches}
use razor_trust.Common.{
  ℕ, zero, suc, ◌+◌, ◌-◌, ◌*◌, ◌/◌, ◌%◌, ◌≤◌, ◌<◌, String, ◌≡◌, refl, sym, ap, ◌∙◌, ◌≢◌, ◌↔◌, ◌⊎◌,
  inl, inr, Bool, true, false, not, ◌&&◌, ◌||◌, Option, none, some, List, [], ◌∷◌, ◌++◌, map, arith,
  str_eq, eq_iff, ltb, leb, ◌==◌, if◌then◌else◌, is_some, ==_iff, ==_refl, Bool-cases, Option-cases,
  length, take, replicate, last, length-append, All, All-append, All_mono,
}
use razor_trust.Common.Exec.{
  Exception, Result, ok, err, and_then, Exec, pure, raise, lift, gets, or_raise, modify, raise_if,
  ◌>>=◌, ◌>>◌, Result-cases, hold_not_found, invalid_transition, key_error, arithmetic_error,
  runtime_error, value_error, audit_format_error, policy_unavailable, authorization_unavailable,
  assertion_error, index_error,
}
use razor_trust.Common.Dict.{Dict, lookup, insert, lookup-insert, lookup-empty}
use razor_trust.Common.Platform.{Platform, IsTotal}
use razor_trust.Domain.{
  unverified, signed_provider_attestation, mocked, scalar, contradictory, insufficient,
  EvidenceAssessment, text, supported, MetadataValue, HoldCase, EvidenceVerdict, EvidenceType,
  EvidenceSubmission, EvidenceRecord, HoldDecision, release, evidence_needed, HoldState, opened,
  awaiting_evidence, evidence_submitted, resolved, human_review, denied,
}
use razor_trust.Security.{Crypto, verify_manifest}

-- `metadata.get(key, "")`, as a string
unfoldable pub get_text : String → List (String × MetadataValue) → String
get_text k [] = ""
get_text k ((j, text v) ∷ m) = if str_eq j k then v else get_text k m
get_text k ((j, scalar v) ∷ m) = if str_eq j k then v else get_text k m

-- The facts that the provider signs. The text of the time, with its offset, is left to `canonical`.
pub record Attestation : Type 0 where
  pub content_sha256 : String
  pub evidence_type : EvidenceType
  pub subject_merchant_id : String
  pub evidence_observed_at : ℕ

abbrev pub attestation_of : EvidenceSubmission → Attestation
attestation_of x = record {
  content_sha256 = x.content_sha256;
  evidence_type = x.evidence_type;
  subject_merchant_id = get_text "subject_merchant_id" x.metadata;
  evidence_observed_at = x.evidence_observed_at;
}

-- `self._keys.get(key_id)` over a `dict` of strings
unfoldable pub get_key : String → List (String × String) → Option String
get_key k [] = none
get_key k ((j, v) ∷ m) = if str_eq j k then some v else get_key k m

-- `key_id or None`
abbrev or_none : String → Option String
or_none s = if str_eq s "" then none else some s

module _ (p : Platform) where
  open p use {Float, le, lit, strip}

  -- `_keys`: the entries with a key and a value, stripped; a later entry takes the place of an
  -- earlier one that strips to the same key.
  unfoldable pub load_keys : List (String × String) → List (String × String)
  load_keys [] = []
  load_keys ((k, v) ∷ m) =
      let rest = load_keys m in
      if str_eq k "" || str_eq v "" || is_some (get_key (strip k) rest)
      then rest
      else (strip k, strip v) ∷ rest

  abbrev pub in_time : EvidenceRecord Float → Bool
  in_time e = le e.recency_hours (lit 168 0)

  abbrev pub verdict_of :
      (signature_valid type_match subject_match time_match : Bool) → EvidenceVerdict
  verdict_of signature_valid type_match subject_match time_match =
      if signature_valid && type_match && subject_match && time_match
      then supported
      else if signature_valid && (not type_match || not subject_match)
      then contradictory
      else insufficient

  abbrev pub signed_by : Crypto → List ℕ → String → Option String → Bool
  signed_by c message signature none = false
  signed_by c message signature (some key) =
      not (str_eq key "") && not (str_eq signature "") && verify_manifest c message signature key

  module _ (c : Crypto) (canonical : Attestation → List ℕ)
      (public_keys : List (String × String)) where
    abbrev pub is_signed : EvidenceSubmission → Bool
    is_signed x =
        signed_by c (canonical (attestation_of x)) (get_text "attestation_signature" x.metadata)
          (get_key (get_text "attestation_key_id" x.metadata) (load_keys public_keys))

    abbrev pub right_type : HoldCase → EvidenceRecord Float → Bool
    right_type hold e =
        type_matches (expected_evidence_type p hold.reason_code) e.submission.evidence_type

    abbrev pub right_subject : HoldCase → EvidenceRecord Float → Bool
    right_subject hold e =
        str_eq (get_text "subject_merchant_id" e.submission.metadata) hold.merchant_id

    -- `SignedAttestationEvidenceVerifier.assess`
    unfoldable pub signed_assess : HoldCase → EvidenceRecord Float → EvidenceAssessment
    signed_assess hold e = record {
      verdict =
          verdict_of (is_signed e.submission) (right_type hold e) (right_subject hold e)
            (in_time e);
      expected_type = expected_evidence_type p hold.reason_code;
      submitted_type = e.submission.evidence_type;
      subject_match = right_subject hold e;
      time_match = in_time e;
      verification_mode = signed_provider_attestation;
      content_sha256 = e.submission.content_sha256;
      verifier_version = "signed-evidence-attestation@1";
      attestation_key_id = or_none (get_text "attestation_key_id" e.submission.metadata);
    }

  -- `_legacy_assessment`, of `LegacyEvidenceVerifier` and `assess_evidence`
  unfoldable pub legacy_assess : HoldCase → EvidenceRecord Float → EvidenceAssessment
  legacy_assess hold e = record {
    verdict =
        if e.type_match && in_time e
        then supported
        else if not e.type_match
        then contradictory
        else insufficient;
    expected_type = expected_evidence_type p hold.reason_code;
    submitted_type = e.submission.evidence_type;
    subject_match = e.type_match;
    time_match = in_time e;
    verification_mode = mocked;
    content_sha256 = e.submission.content_sha256;
    verifier_version = "evidence-rules@1-development-only";
    attestation_key_id = none;
  }

  -- `UnavailableEvidenceVerifier.assess`
  unfoldable pub unavailable_assess : HoldCase → EvidenceRecord Float → EvidenceAssessment
  unavailable_assess hold e = record {
    verdict = insufficient;
    expected_type = expected_evidence_type p hold.reason_code;
    submitted_type = e.submission.evidence_type;
    subject_match = false;
    time_match = in_time e;
    verification_mode = unverified;
    content_sha256 = e.submission.content_sha256;
    verifier_version = "evidence-verifier-unavailable@1";
    attestation_key_id = none;
  }
