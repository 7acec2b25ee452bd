-- ===== src/Evidence/Keys.antt =====
-- The keys that `SignedAttestationEvidenceVerifier` is configured with (src/razortrust/evidence.py).
use razor_trust.Common.{Bool-cases, Option, false, refl, sym, ◌∙◌, inl, inr}
use razor_trust.Evidence.{get_key, load_keys}
use razor_trust.Common.{
  ◌∙◌, sym, String, ◌≡◌, ◌≢◌, ◌↔◌, ◌⊎◌, inl, inr, Bool, true, not, ◌&&◌, none, some, List, [], ◌∷◌,
  arith, str_eq, eq_iff, if◌then◌else◌, Option-cases, All,
}
use razor_trust.Common.Platform.{Platform}

-- Whether an entry of the configured keys counts for an identifier: neither text is empty, and the
-- stripped identifier is the one sought.
abbrev NamesKey : (strip : String → String) → String → String × String → Type 0
NamesKey strip k (i, v) = (i ≢ "") × (v ≢ "") × (strip i ≡ k)

-- The key of an identifier, stripped, is that of the last entry that counts for it.
abbrev pub IsKeyOf : (strip : String → String) → String → String → List (String × String) → Type 0
IsKeyOf strip k key [] = ⊥
IsKeyOf strip k key ((i, v) ∷ m) =
    IsKeyOf strip k key m
    ⊎ (All (λ x. ¬ NamesKey strip k x) m × NamesKey strip k (i, v) × (strip v ≡ key))

pub true_not_false : {b : Bool} → b ≡ true → b ≡ false → ⊥
true_not_false h g = ground arith

-- What is found, or else the key of the entry.
abbrev or_own : Option String → Bool → String → Option String
or_own (some key) here v = some key
or_own none here v = if here then some v else none

or_own-none :
    (o : Option String) (here : Bool) (v : String)
    → (or_own o here v ≡ none) ↔ ((o ≡ none) × (here ≡ false))
or_own-none none here v = ground arith
or_own-none (some x) here v = ground arith

or_own-some :
    (o : Option String) (here : Bool) (v key : String)
    → (or_own o here v ≡ some key) ↔ ((o ≡ some key) ⊎ ((o ≡ none) × (here ≡ true) × (v ≡ key)))
or_own-some none here v key = ground arith
or_own-some (some x) here v key = ground arith

module _ (p : Platform) where
  abbrev names_key : String → String → String → Bool
  names_key k i v = not (str_eq i "") && not (str_eq v "") && str_eq (p.strip i) k

  names_key_iff : (k i v : String) → (names_key k i v ≡ true) ↔ NamesKey p.strip k (i, v)
  names_key_iff k i v = ground (arith, eq_iff i "", eq_iff v "", eq_iff (p.strip i) k)

  -- A later entry comes first.
  get_key-load_keys :
      (k i v : String) (m : List (String × String))
      → get_key k (load_keys p ((i, v) ∷ m))
        ≡ or_own (get_key k (load_keys p m)) (names_key k i v) (p.strip v)
  unfolding get_key load_keys
  get_key-load_keys k i v m = elim (Option-cases (get_key k (load_keys p m))) [
    | inl e ↦ elim (Option-cases (get_key (p.strip i) (load_keys p m))) [
      | inl f ↦ rw (e, f) (ground (arith, eq_iff (p.strip i) k))
      | inr (x, f) ↦ rw (e, f) (ground (arith, eq_iff (p.strip i) k))
    ]
    | inr (y, e) ↦ elim (Option-cases (get_key (p.strip i) (load_keys p m))) [
      | inl f ↦ rw (e, f) (ground (arith, eq_iff (p.strip i) k))
      | inr (x, f) ↦ rw (e, f) (ground (arith, eq_iff (p.strip i) k))
    ]
  ]

  names_no_key : (k i v : String) → (names_key k i v ≡ false) ↔ ¬ NamesKey p.strip k (i, v)
  names_no_key k i v = elim (Bool-cases (names_key k i v)) [
    | inl named ↦
        (λ h. absurd (true_not_false named h), λ h. absurd (h ((names_key_iff k i v).0 named)))
    | inr other ↦ (λ h w. true_not_false ((names_key_iff k i v).1 w) h, λ h. other)
  ]

  get_key-none :
      (k : String) (m : List (String × String))
      → (get_key k (load_keys p m) ≡ none) ↔ All (λ x. ¬ NamesKey p.strip k x) m
  unfolding get_key load_keys
  get_key-none k [] = (λ h. tt, λ h. refl)
  get_key-none k ((i, v) ∷ m) =
      let step = get_key-load_keys k i v m in
      let chosen = or_own-none (get_key k (load_keys p m)) (names_key k i v) (p.strip v) in
      (
        λ h.
            let (a, b) = chosen.0 (sym step ∙ h) in
            ((names_no_key k i v).0 b, (get_key-none k m).0 a),
        λ h. step ∙ chosen.1 ((get_key-none k m).1 h.1, (names_no_key k i v).1 h.0),
      )

  pub get_key_iff :
      (k key : String) (m : List (String × String))
      → (get_key k (load_keys p m) ≡ some key) ↔ IsKeyOf p.strip k key m
  unfolding get_key load_keys
  get_key_iff k key [] = (λ h. ground arith, λ h. elim h [ ])
  get_key_iff k key ((i, v) ∷ m) =
      let step = get_key-load_keys k i v m in
      let chosen = or_own-some (get_key k (load_keys p m)) (names_key k i v) (p.strip v) key in
      (
        λ h. elim (chosen.0 (sym step ∙ h)) [
          | inl a ↦ inl ((get_key_iff k key m).0 a)
          | inr b ↦ inr ((get_key-none k m).0 b.0, (names_key_iff k i v).0 b.1, b.2)
        ],
        λ h.
            step
            ∙ chosen.1 (elim h [
              | inl a ↦ inl ((get_key_iff k key m).1 a)
              | inr b ↦ inr ((get_key-none k m).1 b.0, (names_key_iff k i v).1 b.1, b.2)
            ]),
      )
