-- ===== src/Audit/Chain.antt =====
-- `verify` accepts exactly the chains of hashes.
use razor_trust.Common.{
  ℕ, suc, ◌+◌, ◌≤◌, ◌<◌, ◌≡◌, refl, ◌∙◌, ◌↔◌, inl, inr, Bool, true, false, List, [], ◌∷◌, arith,
  Bool-cases, length,
}
use razor_trust.Common.Exec.{Result, ok, err, Result-cases}
use razor_trust.Audit.{
  genesis_hash, records, Line, verify, check_hash, hash_event, verify_from, AuditRecord, Hashing,
  same_digest,
}

same_digest→eq : (as' bs : List ℕ) → same_digest as' bs ≡ true → as' ≡ bs
unfolding same_digest
same_digest→eq [] [] h = refl
same_digest→eq [] (b ∷ bs) h = cc
same_digest→eq (a ∷ as') [] h = cc
same_digest→eq (a ∷ as') (b ∷ bs) h = ground (arith, same_digest→eq as' bs)

same_digest_refl : (as' : List ℕ) → same_digest as' as' ≡ true
unfolding same_digest
same_digest_refl [] = refl
same_digest_refl (a ∷ as') = ground (arith, same_digest_refl as')

module _ {P : Type 0} (h : Hashing P) where
  -- Each record names the hash of the record before it, and has the hash of its own event.
  abbrev pub IsChain : List ℕ → List (AuditRecord P) → Type 0
  IsChain prev [] = Unit
  IsChain prev (r ∷ rs) =
      (r.previous_hash ≡ prev)
      × (hash_event h r.event prev ≡ ok r.record_hash)
      × IsChain r.record_hash rs

  IsChain→verify_from :
      (i : ℕ) (prev : List ℕ) (rs : List (AuditRecord P))
      → IsChain prev rs
      → verify_from h i prev rs ≡ ok (true, i + length rs)
  unfolding verify_from
  IsChain→verify_from i prev [] c = ground arith
  IsChain→verify_from i prev (r ∷ rs) (p, e, c) = rw p (
      rw (same_digest_refl prev) (
        rw e (
          rw (same_digest_refl r.record_hash)
            (IsChain→verify_from (suc i) r.record_hash rs c ∙ ground arith))))

  -- What a run of `verify` from record `i` on says about its records.
  abbrev Judges : ℕ → List ℕ → List (AuditRecord P) → Result (Bool × ℕ) → Type 0
  Judges i prev rs (ok (true, n)) = IsChain prev rs × (n ≡ i + length rs)
  Judges i prev rs (ok (false, n)) = (i ≤ n) × (n < i + length rs) × (IsChain prev rs → ⊥)
  Judges i prev rs (err x) = IsChain prev rs → ⊥

  Judges-cons :
      (i : ℕ) (prev : List ℕ) (r : AuditRecord P) (rs : List (AuditRecord P)) (expected : List ℕ)
      → r.previous_hash ≡ prev
      → hash_event h r.event prev ≡ ok expected
      → r.record_hash ≡ expected
      → (v : Result (Bool × ℕ)) → Judges (suc i) expected rs v
      → Judges i prev (r ∷ rs) v
  Judges-cons i prev r rs expected p e eq (ok (true, n)) (c, len) =
      ((p, rw eq e, rw eq c), omega arith)
  Judges-cons i prev r rs expected p e eq (ok (false, n)) (lo, hi, bad) =
      (omega arith, omega arith, λ c. bad (rw (← eq) c.2))
  Judges-cons i prev r rs expected p e eq (err x) bad = λ c. bad (rw (← eq) c.2)

  check_hash-Judges :
      (i : ℕ) (prev : List ℕ) (r : AuditRecord P) (rs : List (AuditRecord P)) (expected : List ℕ)
      → r.previous_hash ≡ prev
      → hash_event h r.event prev ≡ ok expected
      → Judges (suc i) expected rs (verify_from h (suc i) expected rs)
      → Judges i prev (r ∷ rs) (check_hash h i r (λ x. verify_from h (suc i) x rs) expected)
  check_hash-Judges i prev r rs expected p e ih =
      elim (Bool-cases (same_digest r.record_hash expected)) [
        | inr broken ↦
            rw broken (omega arith, omega arith, λ c. absurd (cc (c.1, same_digest_refl expected)))
        | inl same ↦ rw same (
            let eq = same_digest→eq r.record_hash expected same in
            Judges-cons i prev r rs expected p e eq (verify_from h (suc i) expected rs) ih)
      ]

  verify_from-Judges :
      (i : ℕ) (prev : List ℕ) (rs : List (AuditRecord P))
      → Judges i prev rs (verify_from h i prev rs)
  unfolding verify_from
  verify_from-Judges i prev [] = (tt, omega arith)
  verify_from-Judges i prev (r ∷ rs) = elim (Bool-cases (same_digest r.previous_hash prev)) [
    | inr broken ↦
        rw broken (omega arith, omega arith, λ c. absurd (cc (c.0, same_digest_refl prev)))
    | inl linked ↦ rw linked (elim (Result-cases (hash_event h r.event prev)) [
      | inr (x, e) ↦ rw e (λ c. absurd (cc (c.1)))
      | inl (expected, e) ↦ rw e (
          check_hash-Judges i prev r rs expected (same_digest→eq r.previous_hash prev linked) e
            (verify_from-Judges (suc i) expected rs))
    ])
  ]

  -- On a ledger whose lines are the records `rs`, `verify` answers True and the number of records
  -- exactly where they form one chain of hashes from the genesis hash.
  pub verify_iff :
      (ls : List (Line P)) (rs : List (AuditRecord P))
      → records ls ≡ ok rs
      → (verify h ls ≡ ok (true, length rs)) ↔ IsChain genesis_hash rs
  unfolding verify
  verify_iff ls rs e = (
    λ v. (rw (rw e at v) at (verify_from-Judges 0 genesis_hash rs)).0,
    λ c. rw e (IsChain→verify_from 0 genesis_hash rs c ∙ ground arith),
  )

  -- Where `verify` answers False with the index `n`, there is a record with that index, and the records
  -- are no chain of hashes from the genesis hash.
  pub verify_rejects :
      (ls : List (Line P)) (rs : List (AuditRecord P)) (n : ℕ)
      → records ls ≡ ok rs
      → verify h ls ≡ ok (false, n)
      → (n < length rs) × ¬ IsChain genesis_hash rs
  unfolding verify
  verify_rejects ls rs n e v =
      let j = rw (rw e at v) at (verify_from-Judges 0 genesis_hash rs) in (omega arith, j.2)
