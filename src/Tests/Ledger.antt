-- ===== src/Tests/Ledger.antt =====
-- The theorems about the audit ledger, on a ledger of one record.
use razor_trust.Audit.Append.{genesis-IsDigest, append-verify}
use razor_trust.Audit.Hex.{hex_digit, from_hex}
use razor_trust.Audit.Chain.{verify_rejects, verify_iff, IsChain}
use razor_trust.Common.{ℕ, ◌<◌, ◌≡◌, refl, ◌↔◌, true, none, List, [], ◌∷◌, ◌++◌}
use razor_trust.Common.Exec.{ok}
use razor_trust.Audit.{
  same_digest, verify_from, complete, parses, append, hash_event, record_of, verify, entry, records,
  AuditRecord, genesis_hash, Line, Entry, Hashing,
}

-- A toy digest: 64 zeros.
abbrev zeros : Hashing ℕ
zeros = record { canonical = λ e h. h; sha256_hex = λ m. genesis_hash }

abbrev creation : Entry ℕ
creation = record {
  case_id = 7;
  actor_id = "hold-intake";
  event_type = "HOLD_CREATED";
  payload = 1;
  actor_type = "SYSTEM";
  model_version = none;
  feature_schema_version = none;
  policy_version = none;
  event_id = 21;
  timestamp = 1003;
}

abbrev record_one : AuditRecord ℕ
record_one = record_of zeros creation [] genesis_hash

abbrev lines : List (Line ℕ)
lines = entry record_one ∷ []

verify_iff_example :
    (verify zeros lines ≡ ok (true, 1)) ↔ IsChain zeros genesis_hash (record_one ∷ [])
unfolding records parses complete
verify_iff_example = verify_iff zeros lines (record_one ∷ []) refl

-- The same record, with another hash.
abbrev forged : AuditRecord ℕ
forged = record_of zeros creation [] (1 ∷ [])

verify_rejects_example : (0 < 1) × ¬ IsChain zeros genesis_hash (forged ∷ [])
unfolding records parses complete verify verify_from same_digest hash_event from_hex hex_digit
verify_rejects_example = verify_rejects zeros (entry forged ∷ []) (forged ∷ []) 0 refl refl

append-verify_example :
    (d : List ℕ) × (append zeros creation lines
      ≡ (ok d, lines ++ entry (record_of zeros creation (record_one ∷ []) d) ∷ []))
    × (verify zeros (lines ++ entry (record_of zeros creation (record_one ∷ []) d) ∷ [])
        ≡ ok (true, 2))
unfolding records parses complete verify verify_from same_digest hex_digit hash_event from_hex
append-verify_example =
    append-verify zeros (λ m. genesis-IsDigest) creation lines (record_one ∷ []) refl refl
