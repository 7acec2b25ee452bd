-- ===== src/Evidence/Verdicts.antt =====
-- When the attestation verifier supports and when it contradicts (src/razortrust/evidence.py).
use razor_trust.Evidence.Keys.{true_not_false, get_key_iff, IsKeyOf}
use razor_trust.Common.{ℕ, Bool-cases, Option, false, refl, inl, inr}
use razor_trust.Evidence.{
  in_time, right_subject, attestation_of, right_type, signed_by, verdict_of, verify_manifest,
  contradictory, supported, is_signed, get_text, EvidenceSubmission, signed_assess,
  expected_evidence_type, type_matches, EvidenceRecord, Attestation, HoldCase, Crypto, EvidenceType,
  get_key, load_keys,
}
use razor_trust.Common.{
  String, ◌≡◌, ◌≢◌, ◌↔◌, ◌⊎◌, inl, inr, Bool, true, none, some, List, arith, eq_iff,
}
use razor_trust.Common.Platform.{Platform}

-- A test that is false refutes what it decides.
refuted : {b : Bool} {A : Type 0} → (b ≡ true) ↔ A → b ≡ false → ¬ A
refuted d h a = true_not_false (d.1 a) h

refutes : {b : Bool} {A : Type 0} → (b ≡ true) ↔ A → ¬ A → b ≡ false
refutes {b = b} d n = elim (Bool-cases b) [ inl h ↦ absurd (n (d.0 h)) | inr h ↦ h ]

module _ (p : Platform) where
  verdict_iff :
      (signed typed subject recent : Bool)
      → ((verdict_of p signed typed subject recent ≡ supported)
          ↔ ((signed ≡ true) × (typed ≡ true) × (subject ≡ true) × (recent ≡ true)))
        × ((verdict_of p signed typed subject recent ≡ contradictory)
            ↔ ((signed ≡ true) × ((typed ≡ false) ⊎ (subject ≡ false))))
  verdict_iff signed typed subject recent = ground arith

  -- The type is the one that the reason of the hold calls for, if it calls for any.
  abbrev pub FitsReason : HoldCase → EvidenceRecord p.Float → Type 0
  FitsReason hold e =
      (expected_evidence_type p hold.reason_code ≡ none)
      ⊎ (expected_evidence_type p hold.reason_code ≡ some e.submission.evidence_type)

  type_matches_iff :
      (o : Option EvidenceType) (t : EvidenceType)
      → (type_matches o t ≡ true) ↔ ((o ≡ none) ⊎ (o ≡ some t))
  type_matches_iff none t = ground arith
  type_matches_iff (some u) t = ground arith

  signed_by_iff :
      (c : Crypto) (message : List ℕ) (signature : String) (o : Option String)
      → (signed_by p c message signature o ≡ true) ↔ (
          (key : String) × (o ≡ some key)
          × (key ≢ "")
          × (signature ≢ "")
          × (verify_manifest c message signature key ≡ true))
  signed_by_iff c message signature none =
      (λ h. ground arith, λ h. let (key, e, f, g, v) = h in ground arith)
  signed_by_iff c message signature (some k) = (
    λ h. (k, refl, ground (arith, eq_iff k ""), ground (arith, eq_iff signature ""), ground arith),
    λ h. let (key, e, f, g, v) = h in ground (arith, eq_iff k "", eq_iff signature ""),
  )

  module _ (c : Crypto) (canonical : Attestation → List ℕ)
      (public_keys : List (String × String)) where
    -- Signed by the key that its metadata names, over its digest, type, subject and time.
    abbrev pub IsAttested : EvidenceSubmission → Type 0
    IsAttested x =
        (key : String) × IsKeyOf p.strip (get_text "attestation_key_id" x.metadata) key public_keys
        × (key ≢ "")
        × (get_text "attestation_signature" x.metadata ≢ "")
        × (verify_manifest c
              (canonical (record {
                content_sha256 = x.content_sha256;
                evidence_type = x.evidence_type;
                subject_merchant_id = get_text "subject_merchant_id" x.metadata;
                evidence_observed_at = x.evidence_observed_at;
              }))
              (get_text "attestation_signature" x.metadata) key
            ≡ true)

    is_signed_iff :
        (x : EvidenceSubmission) → (is_signed p c canonical public_keys x ≡ true) ↔ IsAttested x
    is_signed_iff x =
        let id = get_text "attestation_key_id" x.metadata in
        let signature = get_text "attestation_signature" x.metadata in
        let tests =
          signed_by_iff c (canonical (attestation_of x)) signature
            (get_key id (load_keys p public_keys)) in
        (
          λ h.
              let (key, found, f, g, v) = tests.0 h in
              (key, (get_key_iff p id key public_keys).0 found, f, g, v),
          λ h.
              let (key, found, f, g, v) = h in
              tests.1 (key, (get_key_iff p id key public_keys).1 found, f, g, v),
        )

    -- The attestation verifier supports exactly evidence whose digest, type, subject and time
    -- the key that its metadata names has signed, of the type that the reason of the hold calls
    -- for, if any, about the merchant of the hold, and at most 168 hours old; it contradicts
    -- exactly signed evidence of another type or about another merchant. The key of an
    -- identifier is that of the last configured entry, neither text of which is empty, whose
    -- stripped identifier it is.
    pub signed_verdict_iff :
        (hold : HoldCase) (e : EvidenceRecord p.Float)
        → (((signed_assess p c canonical public_keys hold e).verdict ≡ supported) ↔ (
            IsAttested e.submission
            × FitsReason hold e
            × (get_text "subject_merchant_id" e.submission.metadata ≡ hold.merchant_id)
            × (p.le e.recency_hours (p.lit 168 0) ≡ true)))
          × (((signed_assess p c canonical public_keys hold e).verdict ≡ contradictory) ↔ (
              IsAttested e.submission
              × (¬ FitsReason hold e
                  ⊎ (get_text "subject_merchant_id" e.submission.metadata ≢ hold.merchant_id))))
    unfolding signed_assess
    signed_verdict_iff hold e =
        let signed = is_signed_iff e.submission in
        let typed =
          type_matches_iff (expected_evidence_type p hold.reason_code) e.submission.evidence_type in
        let subject =
          eq_iff (get_text "subject_merchant_id" e.submission.metadata) hold.merchant_id in
        let verdict =
          verdict_iff (is_signed p c canonical public_keys e.submission)
            (right_type p c canonical public_keys hold e)
            (right_subject p c canonical public_keys hold e) (in_time p e) in
        (
          (
            λ h. let (s, t, m, r) = verdict.0.0 h in (signed.0 s, typed.0 t, subject.0 m, r),
            λ h. verdict.0.1 (signed.1 h.0, typed.1 h.1, subject.1 h.2, h.3),
          ),
          (
            λ h.
                let (s, rest) = verdict.1.0 h in
                (
                  signed.0 s,
                  elim rest [ inl a ↦ inl (refuted typed a) | inr b ↦ inr (refuted subject b) ],
                ),
            λ h. verdict.1.1 (
              signed.1 h.0,
              elim h.1 [ inl a ↦ inl (refutes typed a) | inr b ↦ inr (refutes subject b) ],
            ),
          ),
        )
