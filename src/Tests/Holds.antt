-- ===== src/Tests/Holds.antt =====
-- The theorems about the repository, on one hold that is created, decided on and reviewed.
use razor_trust.Repository.Authority.Calls.{resolved-HasRelease}
use razor_trust.Repository.Lifecycle.{perform-Advances, Advances}
use razor_trust.Repository.Authority.{HasRelease}
use razor_trust.Repository.Submissions.{evidence_record}
use razor_trust.Repository.Idempotence.{review_again, submit_again, create_again}
use razor_trust.Repository.Calls.Moves.{perform-Moves, Moves}
use razor_trust.Repository.Calls.Safety.{Reach-IsValid, perform-Settles, Settles}
use razor_trust.Repository.Invariant.{IsValid}
use razor_trust.Common.{ℕ, ◌≡◌, refl, true, false, some}
use razor_trust.Common.Exec.{ok}
use razor_trust.Common.Dict.{lookup, insert}
use razor_trust.Domain.{
  legitimate, AnalystReviewRecord, resolved_action, EvidenceRecord, resolved_decision, HoldCase,
  HoldDecision, release, evidence_needed, HoldState, opened, awaiting_evidence, resolved,
  human_review,
}
use razor_trust.Repository.Cases
use razor_trust.Repository.Reviews
use razor_trust.Repository.Submissions
use razor_trust.Repository.State.{Repository, empty}
use razor_trust.Repository.Calls.{Call, perform, Reach}
use razor_trust.Tests.Fixtures.{naturals, request, decision_of, approval, invoice}

abbrev opening : Call ℕ
opening = Call.create request 7 1001 1002

abbrev deciding : HoldDecision → Call ℕ
deciding d = Call.save_decision (decision_of d) 1011

abbrev reviewing : Call ℕ
reviewing = Call.record_analyst_review 7 approval "analyst" 11 1021 1022

abbrev opened_repository : Repository ℕ
opened_repository = (perform naturals opening empty).1

abbrev decided_repository : Repository ℕ
decided_repository = (perform naturals (deciding release) opened_repository).1

abbrev resolved_repository : Repository ℕ
resolved_repository = (perform naturals reviewing decided_repository).1

abbrev waiting_repository : Repository ℕ
waiting_repository = (perform naturals (deciding evidence_needed) opened_repository).1

abbrev case_of : HoldState → ℕ → HoldCase
case_of state now = record {
  hold_id = 7;
  request_id = 3;
  merchant_id = "m1";
  source_event_id = "e1";
  triggered_at = 1000;
  reason_code = some "CAMPAIGN";
  state = state;
  evidence_round = 0;
  created_at = 1001;
  updated_at = now;
}

opened_reached : Reach naturals opened_repository
unfolding lookup
opened_reached = Reach.call opening Reach.start refl

decided_reached : Reach naturals decided_repository
decided_reached = Reach.call (deciding release) opened_reached tt

resolved_reached : Reach naturals resolved_repository
resolved_reached = Reach.call reviewing decided_reached tt

resolved-HasRelease_example : HasRelease (lookup 7 resolved_repository.reviews)
unfolding lookup insert perform Cases.create Cases.save_decision Reviews.record_analyst_review
    resolved_decision resolved_action Reviews.training_label
resolved-HasRelease_example =
    resolved-HasRelease naturals {s = resolved_repository} 7 (case_of resolved 1022)
      resolved_reached refl refl

Reach-IsValid_example : IsValid resolved_repository
Reach-IsValid_example = Reach-IsValid naturals {s = resolved_repository} resolved_reached

perform-Settles_example :
    Settles naturals decided_repository (perform naturals reviewing decided_repository)
perform-Settles_example =
    perform-Settles naturals reviewing decided_repository tt
      (Reach-IsValid naturals decided_reached)

perform-Moves_example : Moves reviewing 7 (case_of human_review 1011) resolved_repository
unfolding lookup insert perform Cases.create Cases.save_decision
perform-Moves_example =
    perform-Moves naturals reviewing decided_repository 7 (case_of human_review 1011) tt refl

perform-Advances_example : Advances 7 (case_of human_review 1011) resolved_repository
unfolding lookup insert perform Cases.create Cases.save_decision
perform-Advances_example =
    perform-Advances naturals reviewing decided_repository 7 (case_of human_review 1011) tt refl
      (Reach-IsValid naturals decided_reached)

create_again_example :
    Cases.create request 8 2001 2002 opened_repository
    ≡ (ok (case_of opened 1002, false), opened_repository)
unfolding lookup insert perform Cases.create
create_again_example =
    create_again request request 7 1001 1002 8 2001 2002 empty opened_repository
      (case_of opened 1002) true refl refl

abbrev campaign_evidence : EvidenceRecord ℕ
campaign_evidence = evidence_record naturals (case_of awaiting_evidence 1011) invoice 7 12 1031

abbrev submitted_repository : Repository ℕ
submitted_repository =
    (Submissions.submit_evidence naturals 7 invoice 12 1031 1032 waiting_repository).1

submit_again_example :
    Submissions.submit_evidence naturals 7 invoice 13 2031 2032 submitted_repository
    ≡ (ok (campaign_evidence, false), submitted_repository)
unfolding lookup insert perform Cases.create Cases.save_decision Submissions.submit_evidence
    Submissions.expected_evidence_type Submissions.evidence_type_of
submit_again_example =
    submit_again naturals 7 7 invoice invoice 12 1031 1032 13 2031 2032 waiting_repository
      submitted_repository campaign_evidence true refl refl

abbrev approval_record : AnalystReviewRecord ℕ
approval_record = Reviews.review_record 7 approval "analyst" legitimate 11 1021

review_again_example :
    Reviews.record_analyst_review 7 approval "other" 14 3021 3022 resolved_repository
    ≡ (ok (approval_record, false), resolved_repository)
unfolding lookup insert perform Cases.create Cases.save_decision Reviews.record_analyst_review
    resolved_decision resolved_action Reviews.training_label
review_again_example =
    review_again 7 7 approval approval "analyst" "other" 11 1021 1022 14 3021 3022
      decided_repository resolved_repository approval_record true refl refl
