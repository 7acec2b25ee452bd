-- ===== src/Tests/Database.antt =====
-- The theorems about the SQL repository, on a hold and a decision.
use razor_trust.Database.Races.{create_returns}
use razor_trust.Repository.Cases.{new_case}
use razor_trust.Audit.{genesis_hash}
use razor_trust.Database.Chain.{IsAudited}
use razor_trust.Database.Queries.{find_request, first_where}
use razor_trust.Database.Tables.{empty_database, Database, SqlHashing}
use razor_trust.Tests.Fixtures.{naturals, request, decision_of}
use razor_trust.Database.Calls.{Call, after, Reach-IsAudited, start, call}
use razor_trust.Database.Holds.{create, with_hold}
use razor_trust.Common.{ℕ, ◌≡◌, refl, ◌⊎◌, Bool, some}
use razor_trust.Common.Exec.{ok}
use razor_trust.Domain.{escalate, HoldCase, evidence_needed}

-- A toy digest: 64 zeros.
abbrev zero_digests : SqlHashing ℕ ℕ
zero_digests = record { canonical = λ e h. h; sha256_hex = λ m. genesis_hash }

-- The hold is created, decided on with an audit event, and decided on again.
abbrev hold_call : Call ℕ ℕ
hold_call = Call.create request 7 1000

abbrev first_call : Call ℕ ℕ
first_call = Call.save_decision_and_audit (decision_of evidence_needed) 1 "trace" 21 1001

abbrev second_call : Call ℕ ℕ
second_call = Call.save_decision_and_audit (decision_of escalate) 2 "trace" 22 1002

Reach-IsAudited_example : IsAudited zero_digests (
    after naturals zero_digests second_call (
      after naturals zero_digests first_call
        (after naturals zero_digests hold_call empty_database)))
Reach-IsAudited_example =
    Reach-IsAudited naturals zero_digests
      (call second_call (call first_call (call hold_call start)))

-- Another session commits the same request under another number.
abbrev overtaken : Database ℕ ℕ → Database ℕ ℕ
overtaken s = with_hold (new_case request 9 999 999) s

create_returns_example :
    (hold : HoldCase) × (new : Bool) × (s' : Database ℕ ℕ) × (create request 7 1000 overtaken
        empty_database
      ≡ (ok (hold, new), s'))
    × (find_request request.request_id s'.holds ≡ some hold)
    × ((s' ≡ empty_database)
        ⊎ (s' ≡ overtaken empty_database)
        ⊎ (s' ≡ with_hold hold (overtaken empty_database)))
unfolding first_where
create_returns_example = create_returns request 7 1000 overtaken empty_database refl
