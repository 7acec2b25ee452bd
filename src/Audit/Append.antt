-- ===== src/Audit/Append.antt =====
-- `append` on a ledger that `verify` accepts.
use mathlib.Core.Path.{subst}
use razor_trust.Common.{
  ℕ, suc, ◌≡◌, refl, ◌∙◌, inl, inr, true, some, List, [], ◌∷◌, ◌++◌, arith, ◌==◌, Bool-cases,
  Option-cases, length, replicate, last, length-append,
}
use razor_trust.Common.Exec.{ok, Result-cases}
use razor_trust.Audit.Chain.{verify_iff, IsChain}
use razor_trust.Audit.Hex.{from_hex}
use razor_trust.Audit.{
  event_of, record_of, verify, Entry, hash_or_genesis, append, genesis_hash, bad_json, incomplete,
  entry, AuditEvent, hash_event, Line, AuditRecord, records, parses, complete, Hashing,
}

module _ {P : Type 0} where
  complete-append :
      (ls : List (Line P)) (rs : List (AuditRecord P)) (r : AuditRecord P)
      → complete ls ≡ ok rs
      → complete (ls ++ entry r ∷ []) ≡ ok (rs ++ r ∷ [])
  unfolding complete
  complete-append [] rs r e = ground arith
  complete-append (entry x ∷ ls) rs r e = elim (Result-cases (complete ls)) [
    | inl (xs, q) ↦
        let same : x ∷ xs ≡ rs = cc (rw q at e) in rw (complete-append ls xs r q) (rw (← same) refl)
    | inr (x', q) ↦ absurd (cc (rw q at e))
  ]
  complete-append (incomplete ∷ ls) rs r e = cc
  complete-append (bad_json ∷ ls) rs r e = cc

  parses-append : (ls : List (Line P)) (r : AuditRecord P) → parses (ls ++ entry r ∷ []) ≡ parses ls
  unfolding parses
  parses-append [] r = refl
  parses-append (entry x ∷ ls) r = parses-append ls r
  parses-append (incomplete ∷ ls) r = parses-append ls r
  parses-append (bad_json ∷ ls) r = refl

  records-append :
      (ls : List (Line P)) (rs : List (AuditRecord P)) (r : AuditRecord P)
      → records ls ≡ ok rs
      → records (ls ++ entry r ∷ []) ≡ ok (rs ++ r ∷ [])
  unfolding records
  records-append ls rs r e = elim (Bool-cases (parses ls)) [
    | inl good ↦ rw (parses-append ls r) (rw good (complete-append ls rs r (rw good at e)))
    | inr bad ↦ absurd (cc (rw bad at e))
  ]

-- A digest: 64 characters that `bytes.fromhex` reads.
abbrev pub IsDigest : List ℕ → Type 0
IsDigest d = (length d ≡ 64) × ((bytes : List ℕ) × (from_hex d ≡ some bytes))

-- The hash that the next record names.
abbrev head_from : {P : Type 0} → List ℕ → List (AuditRecord P) → List ℕ
head_from prev [] = prev
head_from prev (r ∷ rs) = head_from r.record_hash rs

head_from-last :
    {P : Type 0} (rs : List (AuditRecord P)) → hash_or_genesis (last rs) ≡ head_from genesis_hash rs
head_from-last [] = refl
head_from-last (x ∷ []) = refl
head_from-last {P = P} (x ∷ y ∷ rs) = head_from-last_cons x y rs
  where
    head_from-last_cons :
        (x y : AuditRecord P) (rs : List (AuditRecord P))
        → hash_or_genesis (last (x ∷ y ∷ rs)) ≡ head_from genesis_hash (x ∷ y ∷ rs)
    head_from-last_cons x y [] = refl
    head_from-last_cons x y (z ∷ rs) = head_from-last_cons y z rs

pub genesis-IsDigest : IsDigest genesis_hash
unfolding from_hex
genesis-IsDigest = (refl, (replicate 32 0, refl))

module _ {P : Type 0} (h : Hashing P) where
  hash_event_total :
      (e : AuditEvent P) (d : List ℕ) → IsDigest d → (x : List ℕ) × (hash_event h e d ≡ ok x)
  unfolding hash_event
  hash_event_total e d (len, (bytes, read)) =
      (h.sha256_hex (bytes ++ h.canonical e d), rw len (rw read refl))

  IsChain-append :
      (prev : List ℕ) (rs : List (AuditRecord P)) (r : AuditRecord P)
      → IsChain h prev rs
      → r.previous_hash ≡ head_from prev rs
      → hash_event h r.event (head_from prev rs) ≡ ok r.record_hash
      → IsChain h prev (rs ++ r ∷ [])
  IsChain-append prev [] r c p e = (p, e, tt)
  IsChain-append prev (x ∷ rs) r (q, w, c) p e = (q, w, IsChain-append x.record_hash rs r c p e)

  -- SHA-256 in hexadecimal is a digest.
  module _ (digests : (m : List ℕ) → IsDigest (h.sha256_hex m)) where
    hash_event-IsDigest : (e : AuditEvent P) (d x : List ℕ) → hash_event h e d ≡ ok x → IsDigest x
    unfolding hash_event
    hash_event-IsDigest e d x q = elim (Bool-cases (length d == 64)) [
      | inl long ↦ elim (Option-cases (from_hex d)) [
        | inr (bytes, read) ↦
            let same : h.sha256_hex (bytes ++ h.canonical e d) ≡ x = cc (rw (long, read) at q) in
            subst IsDigest same (digests (bytes ++ h.canonical e d))
        | inl read ↦ absurd (cc (rw (long, read) at q))
      ]
      | inr short ↦ absurd (cc (rw short at q))
    ]

    head_from-IsDigest :
        (prev : List ℕ) (rs : List (AuditRecord P))
        → IsDigest prev
        → IsChain h prev rs
        → IsDigest (head_from prev rs)
    head_from-IsDigest prev [] d c = d
    head_from-IsDigest prev (r ∷ rs) d (p, e, c) =
        head_from-IsDigest r.record_hash rs (hash_event-IsDigest r.event prev r.record_hash e) c

    -- On a ledger that `verify` accepts, `append` succeeds, and `verify` accepts the ledger with the
    -- record that it adds, which is the event of its arguments with the next sequence number of the case.
    pub append-verify :
        (x : Entry P) (ls : List (Line P)) (rs : List (AuditRecord P))
        → records ls ≡ ok rs
        → verify h ls ≡ ok (true, length rs)
        → (d : List ℕ) × (append h x ls ≡ (ok d, ls ++ entry (record_of h x rs d) ∷ []))
          × (verify h (ls ++ entry (record_of h x rs d) ∷ []) ≡ ok (true, suc (length rs)))
    unfolding append
    append-verify x ls rs e v =
        let c = (verify_iff h ls rs e).0 v in
        let prev = head_from genesis_hash rs in
        let (d, q) =
          hash_event_total (event_of h x rs) prev
            (head_from-IsDigest genesis_hash rs genesis-IsDigest c) in
        let r = record_of h x rs d in
        let q' : hash_event h (event_of h x rs) (hash_or_genesis (last rs)) ≡ ok d =
          rw (head_from-last rs) q in
        let c' = IsChain-append genesis_hash rs r c (head_from-last rs) q in
        let v' =
          (verify_iff h (ls ++ entry r ∷ []) (rs ++ r ∷ []) (records-append ls rs r e)).1 c' in
        (d, rw e (rw q' refl), v' ∙ ground (arith, length-append rs (r ∷ [])))
