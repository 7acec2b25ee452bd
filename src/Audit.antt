-- ===== src/Audit.antt =====
-- The audit ledger: src/razortrust/audit.py. The JSONL file is the list of its lines.
pub mod Hex
pub mod Chain
pub mod Append
pub mod Numbering
use razor_trust.Audit.Hex.{from_hex}
use razor_trust.Common.{
  ℕ, zero, suc, ◌+◌, ◌-◌, ◌*◌, ◌/◌, ◌%◌, ◌≤◌, ◌<◌, String, ◌≡◌, refl, sym, ap, ◌∙◌, ◌≢◌, ◌↔◌, ◌⊎◌,
  inl, inr, Bool, true, false, not, ◌&&◌, ◌||◌, Option, none, some, List, [], ◌∷◌, ◌++◌, map, arith,
  str_eq, eq_iff, ltb, leb, ◌==◌, if◌then◌else◌, is_some, ==_iff, ==_refl, Bool-cases, Option-cases,
  length, take, replicate, last, length-append, All, All-append, All_mono,
}
use razor_trust.Common.Exec.{
  Exception, Result, ok, err, and_then, Exec, pure, raise, lift, gets, or_raise, modify, raise_if,
  ◌>>=◌, ◌>>◌, Result-cases, hold_not_found, invalid_transition, key_error, arithmetic_error,
  runtime_error, value_error, audit_format_error, policy_unavailable, authorization_unavailable,
  assertion_error, index_error,
}
use razor_trust.Common.Dict.{Dict, lookup, insert, lookup-insert, lookup-empty}
use razor_trust.Common.Platform.{Platform, IsTotal}
use razor_trust.Domain.{
  HoldDecision, release, evidence_needed, HoldState, opened, awaiting_evidence, evidence_submitted,
  resolved, human_review, denied,
}

-- `payload` is JSON, of a type that the caller chooses.
pub record AuditEvent (P : Type 0) : Type 0 where
  pub event_id : ℕ
  pub case_id : ℕ
  pub sequence_no : ℕ
  pub actor_type : String
  pub actor_id : String
  pub event_type : String
  pub timestamp : ℕ
  pub model_version : Option String
  pub feature_schema_version : Option String
  pub policy_version : Option String
  pub input_refs : List String
  pub payload : P

-- A digest is the characters of its hexadecimal form.
pub record AuditRecord (P : Type 0) : Type 0 where
  pub event : AuditEvent P
  pub previous_hash : List ℕ
  pub record_hash : List ℕ

-- A line of the file: a complete record, one that lacks a required key, or no JSON.
pub data Line (P : Type 0) : Type 0 where
  entry : AuditRecord P → Line P
  incomplete bad_json : Line P

-- What a record is hashed with: RFC 8785 and SHA-256 are libraries. `canonical e h` are the bytes of
-- the event with its `previous_hash`; an event that RFC 8785 refuses, for a number out of its range, is not
-- modelled.
pub record Hashing (P : Type 0) : Type 0 where
  pub canonical : AuditEvent P → List ℕ → List ℕ
  pub sha256_hex : List ℕ → List ℕ

abbrev pub genesis_hash : List ℕ
genesis_hash = replicate 64 b'0'

module _ {P : Type 0} where
  -- `json.loads` of every line, before any key is looked for
  unfoldable pub parses : List (Line P) → Bool
  parses [] = true
  parses (bad_json ∷ ls) = false
  parses (entry r ∷ ls) = parses ls
  parses (incomplete ∷ ls) = parses ls

  unfoldable pub complete : List (Line P) → Result (List (AuditRecord P))
  complete [] = ok []
  complete (entry r ∷ ls) = let rest = complete ls in and_then rest (λ rs. ok (r ∷ rs))
  complete (incomplete ∷ ls) = err audit_format_error
  complete (bad_json ∷ ls) = err value_error

  -- `AuditLedger._records`
  unfoldable pub records : List (Line P) → Result (List (AuditRecord P))
  unfolding parses complete
  records ls = if parses ls then complete ls else err value_error

  abbrev pub hash_or_genesis : Option (AuditRecord P) → List ℕ
  hash_or_genesis none = genesis_hash
  hash_or_genesis (some r) = r.record_hash

  -- `AuditLedger.head_hash`
  unfoldable pub head_hash : List (Line P) → Result (List ℕ)
  head_hash ls = and_then (records ls) (λ rs. ok (hash_or_genesis (last rs)))

  -- The records of one case, as `records_for_case` and the sequence number count them.
  pub of_case : ℕ → List (AuditRecord P) → List (AuditRecord P)
  of_case k [] = []
  of_case k (r ∷ rs) = let rest = of_case k rs in if r.event.case_id == k then r ∷ rest else rest

  unfoldable pub records_for_case : ℕ → List (Line P) → Result (List (AuditRecord P))
  unfolding of_case
  records_for_case k ls = and_then (records ls) (λ rs. ok (of_case k rs))

-- The arguments of `append`, and what `uuid4()` and the clock give.
pub record Entry (P : Type 0) : Type 0 where
  pub case_id : ℕ
  pub actor_id : String
  pub event_type : String
  pub payload : P
  pub actor_type : String
  pub model_version : Option String
  pub feature_schema_version : Option String
  pub policy_version : Option String
  pub event_id : ℕ
  pub timestamp : ℕ

-- `==` of digests
unfoldable pub same_digest : List ℕ → List ℕ → Bool
same_digest [] [] = true
same_digest (a ∷ as') (b ∷ bs) = a == b && same_digest as' bs
same_digest _ _ = false

-- `hash_event`, over the canonical bytes of an event with its `previous_hash`
module _ {E : Type 0} (canonical : E → List ℕ → List ℕ) (sha256_hex : List ℕ → List ℕ) where
  abbrev hash_bytes : E → List ℕ → Option (List ℕ) → Result (List ℕ)
  hash_bytes e previous_hash none = err value_error
  hash_bytes e previous_hash (some bytes) = ok (sha256_hex (bytes ++ canonical e previous_hash))

  abbrev pub hash_dict : E → List ℕ → Result (List ℕ)
  hash_dict e previous_hash =
      if not (length previous_hash == 64)
      then err value_error
      else hash_bytes e previous_hash (from_hex previous_hash)

module _ {P : Type 0} (h : Hashing P) where
  unfoldable pub hash_event : AuditEvent P → List ℕ → Result (List ℕ)
  hash_event e previous_hash = hash_dict h.canonical h.sha256_hex e previous_hash

  abbrev pub event_of : Entry P → List (AuditRecord P) → AuditEvent P
  event_of x rs = record {
    event_id = x.event_id;
    case_id = x.case_id;
    sequence_no = 1 + length (of_case x.case_id rs);
    actor_type = x.actor_type;
    actor_id = x.actor_id;
    event_type = x.event_type;
    timestamp = x.timestamp;
    model_version = x.model_version;
    feature_schema_version = x.feature_schema_version;
    policy_version = x.policy_version;
    input_refs = [];
    payload = x.payload;
  }

  abbrev pub record_of : Entry P → List (AuditRecord P) → List ℕ → AuditRecord P
  record_of x rs record_hash = record {
    event = event_of x rs;
    previous_hash = hash_or_genesis (last rs);
    record_hash = record_hash;
  }

  -- `AuditLedger.append`
  unfoldable pub append : Entry P → Exec (List (Line P)) (List ℕ)
  append x = do
    rs ← lift (records (← gets (λ ls. ls)))
    record_hash ← lift (hash_event (event_of x rs) (hash_or_genesis (last rs)))
    modify (λ ls. ls ++ entry (record_of x rs record_hash) ∷ [])
    pure record_hash

  -- The second test of the loop of `verify`, and the next round.
  abbrev pub check_hash :
      ℕ → AuditRecord P → (List ℕ → Result (Bool × ℕ)) → List ℕ → Result (Bool × ℕ)
  check_hash index r next expected =
      let rest = next expected in
      if not (same_digest r.record_hash expected) then ok (false, index) else rest

  -- The loop of `verify`, from record `index` on.
  unfoldable pub verify_from : ℕ → List ℕ → List (AuditRecord P) → Result (Bool × ℕ)
  verify_from index previous_hash [] = ok (true, index)
  verify_from index previous_hash (r ∷ rs) =
      let linked =
        and_then (hash_event r.event previous_hash)
          (check_hash index r (λ expected. verify_from (suc index) expected rs)) in
      if not (same_digest r.previous_hash previous_hash) then ok (false, index) else linked

  -- `AuditLedger.verify`
  unfoldable pub verify : List (Line P) → Result (Bool × ℕ)
  unfolding verify_from same_digest
  verify ls = and_then (records ls) (verify_from 0 genesis_hash)
