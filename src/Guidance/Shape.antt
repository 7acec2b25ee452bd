-- ===== src/Guidance/Shape.antt =====
-- Guidance is always well formed.
use razor_trust.Common.{
  length-take-le, length-map, ℕ, ◌+◌, ◌*◌, ◌≤◌, String, ◌≡◌, refl, ◌≢◌, ◌⊎◌, inl, inr, false, ◌||◌,
  none, some, List, [], ◌∷◌, ◌++◌, map, arith, Bool-cases, length, take, length-append,
}
use razor_trust.Domain.{
  other, inventory, auth_incident, geo_expansion, fulfillment, campaign, evidence_type_eq,
  EvidenceType, FeatureContribution, EvidenceRequirement, MerchantGuidance, HoldDecision, release,
  evidence_needed,
}
use razor_trust.Guidance.Tables.{requirement}
use razor_trust.Guidance.{
  message_of, selected, build_merchant_guidance, guidance_for, default_types, default_reasons,
  evidence_of, collect_types, has_type,
}

-- No type is listed twice.
abbrev pub Distinct : List EvidenceType → Type 0
Distinct [] = Unit
Distinct (t ∷ ts) = (has_type t ts ≡ false) × Distinct ts

has_type-append :
    (t u : EvidenceType) (ts : List EvidenceType)
    → has_type t (ts ++ u ∷ []) ≡ (has_type t ts || evidence_type_eq u t)
unfolding has_type
has_type-append t u [] = ground arith
has_type-append t u (x ∷ ts) = ground (arith, has_type-append t u ts)

Distinct-append :
    (u : EvidenceType) (ts : List EvidenceType)
    → Distinct ts
    → has_type u ts ≡ false
    → Distinct (ts ++ u ∷ [])
unfolding has_type
Distinct-append u [] h fresh = ground arith
Distinct-append u (x ∷ ts) h fresh =
    ground (arith, has_type-append x u ts, Distinct-append u ts h.1)

collect_types-Distinct :
    (seen : List EvidenceType) (fs : List String) → Distinct seen → Distinct (collect_types seen fs)
unfolding collect_types
collect_types-Distinct seen [] h = h
collect_types-Distinct seen (f ∷ fs) h = elim (Bool-cases (has_type (evidence_of f) seen)) [
  | inl old ↦ rw old (collect_types-Distinct seen fs h)
  | inr new ↦ rw new (
      collect_types-Distinct (seen ++ evidence_of f ∷ []) fs
        (Distinct-append (evidence_of f) seen h new))
]

length-collect_types :
    (seen : List EvidenceType) (fs : List String)
    → length (collect_types seen fs) ≤ length seen + length fs
unfolding collect_types
length-collect_types seen [] = omega arith
length-collect_types seen (f ∷ fs) = elim (Bool-cases (has_type (evidence_of f) seen)) [
  | inl old ↦ rw old (omega (arith, length-collect_types seen fs))
  | inr new ↦ rw new (
      omega (
        arith,
        length-collect_types (seen ++ evidence_of f ∷ []) fs,
        length-append seen (evidence_of f ∷ []),
      ))
]

abbrev types_of : List EvidenceRequirement → List EvidenceType
types_of rs = map (λ r. r.evidence_type) rs

types-requirement : (ts : List EvidenceType) → types_of (map requirement ts) ≡ ts
unfolding requirement
types-requirement [] = refl
types-requirement (campaign ∷ ts) = rw (types-requirement ts) refl
types-requirement (fulfillment ∷ ts) = rw (types-requirement ts) refl
types-requirement (geo_expansion ∷ ts) = rw (types-requirement ts) refl
types-requirement (auth_incident ∷ ts) = rw (types-requirement ts) refl
types-requirement (inventory ∷ ts) = rw (types-requirement ts) refl
types-requirement (other ∷ ts) = rw (types-requirement ts) refl

default_bounds :
    (ts : List EvidenceType)
    → length ts ≤ 3
    → (1 ≤ length (default_types ts)) × (length (default_types ts) ≤ 3)
default_bounds [] h = omega arith
default_bounds (t ∷ ts) h = omega arith

default-Distinct : (ts : List EvidenceType) → Distinct ts → Distinct (default_types ts)
unfolding has_type
default-Distinct [] h = (refl, tt)
default-Distinct (t ∷ ts) h = h

reasons_bounds :
    (rs : List String)
    → length rs ≤ 3
    → (1 ≤ length (default_reasons rs)) × (length (default_reasons rs) ≤ 3)
reasons_bounds [] h = omega arith
reasons_bounds (t ∷ ts) h = omega arith

-- The constraints of the `MerchantGuidance` model, the distinctness of what is asked for, and the
-- deadline.
pub record IsWellFormed (g : MerchantGuidance) (created_at deadline_hours : ℕ) : Type 0 where
  pub reasons_given : (1 ≤ length g.reasons) × (length g.reasons ≤ 3)
  pub evidence_asked : (1 ≤ length g.required_evidence) × (length g.required_evidence ≤ 3)
  pub asked_once : Distinct (types_of g.required_evidence)
  pub deadline : g.submit_by ≡ created_at + deadline_hours * 3600000000

module _ {F : Type 0} (top : List (FeatureContribution F)) (created_at deadline_hours : ℕ) where
  length-selected : length (selected top) ≤ 3
  length-selected = omega (
    arith,
    length-map (λ (c : FeatureContribution F). c.feature) (take 3 top),
    length-take-le 3 top,
  )

  guidance-IsWellFormed :
      IsWellFormed (guidance_for top created_at deadline_hours) created_at deadline_hours
  guidance-IsWellFormed =
      let ts = collect_types [] (selected top) in
      let few = length-collect_types [] (selected top) in
      record {
        reasons_given =
            reasons_bounds (map message_of (selected top))
              (omega (arith, length-map message_of (selected top), length-selected));
        evidence_asked =
            rw (length-map requirement (default_types ts))
              (default_bounds ts (omega (arith, few, length-selected)));
        asked_once =
            rw (types-requirement (default_types ts))
              (default-Distinct ts (collect_types-Distinct [] (selected top) tt));
        deadline = refl;
      }

  -- Guidance is built exactly for EVIDENCE_NEEDED. It then has one to three reasons and one to three
  -- evidence requirements, so that the model's constraints hold, no evidence type is asked for twice,
  -- and the deadline is the given number of hours after the decision.
  pub build_merchant_guidance_lem :
      (d : HoldDecision)
      → ((d ≢ evidence_needed) × (build_merchant_guidance d top created_at deadline_hours ≡ none))
        ⊎ ((d ≡ evidence_needed)
            × ((g : MerchantGuidance) × (build_merchant_guidance d top created_at deadline_hours
                  ≡ some g)
                × IsWellFormed g created_at deadline_hours))
  unfolding build_merchant_guidance
  build_merchant_guidance_lem release = inl (ground arith, refl)
  build_merchant_guidance_lem evidence_needed =
      inr (refl, (guidance_for top created_at deadline_hours, refl, guidance-IsWellFormed))
  build_merchant_guidance_lem HoldDecision.escalate = inl (ground arith, refl)
