-- ===== src/Audit/Numbering.antt =====
-- The sequence numbers of `AuditLedger.append` (src/razortrust/audit.py).
use mathlib.Core.List.{append-nil, append_assoc}
use razor_trust.Common.{refl}
use razor_trust.Audit.Append.{append-verify, IsDigest}
use razor_trust.Audit.{
  of_case, AuditRecord, Entry, Line, Hashing, records, verify, append, record_of, entry,
}
use razor_trust.Common.{
  ℕ, suc, ◌≡◌, refl, true, List, [], ◌∷◌, ◌++◌, arith, ◌==◌, if◌then◌else◌, length,
}
use razor_trust.Common.Exec.{ok}

module _ {P : Type 0} where
  abbrev pub count_case : ℕ → List (AuditRecord P) → ℕ
  count_case k [] = 0
  count_case k (r ∷ rs) = let n = count_case k rs in if r.event.case_id == k then suc n else n

  -- Behind other records, each record has the number of the records of its case before it, plus one.
  unfoldable pub NumberedAfter : List (AuditRecord P) → List (AuditRecord P) → Type 0
  NumberedAfter before [] = Unit
  NumberedAfter before (r ∷ rs) =
      (r.event.sequence_no ≡ suc (count_case r.event.case_id before))
      × NumberedAfter (before ++ r ∷ []) rs

  -- The records of every case are numbered from 1 without a gap.
  abbrev pub IsNumbered : List (AuditRecord P) → Type 0
  IsNumbered rs = NumberedAfter [] rs

  length-of_case : (k : ℕ) (rs : List (AuditRecord P)) → length (of_case k rs) ≡ count_case k rs
  unfolding of_case
  length-of_case k [] = refl
  length-of_case k (r ∷ rs) = ground (arith, length-of_case k rs)

  NumberedAfter-append :
      (before rs : List (AuditRecord P)) (r : AuditRecord P)
      → NumberedAfter before rs
      → r.event.sequence_no ≡ suc (count_case r.event.case_id (before ++ rs))
      → NumberedAfter before (rs ++ r ∷ [])
  unfolding NumberedAfter
  NumberedAfter-append before [] r h e = (rw (append-nil before) at e, tt)
  NumberedAfter-append before (x ∷ rs) r h e = (
    h.0,
    NumberedAfter-append (before ++ x ∷ []) rs r h.1 (rw (append_assoc before (x ∷ []) rs) e),
  )

  -- `append` to a ledger that `verify` accepts, and whose records are numbered, leaves it numbered.
  append-IsNumbered :
      (h : Hashing P) (digests : (m : List ℕ) → IsDigest (h.sha256_hex m)) (x : Entry P)
      (ls : List (Line P)) (rs : List (AuditRecord P))
      → records ls ≡ ok rs
      → verify h ls ≡ ok (true, length rs)
      → IsNumbered rs
      → (d : List ℕ) × (append h x ls ≡ (ok d, ls ++ entry (record_of h x rs d) ∷ []))
        × IsNumbered (rs ++ record_of h x rs d ∷ [])
  append-IsNumbered h digests x ls rs e v n =
      let (d, q, rest) = append-verify h digests x ls rs e v in
      (
        d,
        q,
        NumberedAfter-append [] rs (record_of h x rs d) n
            (omega (arith, length-of_case x.case_id rs)),
      )
