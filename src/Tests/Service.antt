-- ===== src/Tests/Service.antt =====
-- The theorem about the service, with a risk model that is unavailable.
use razor_trust.Audit.Append.{genesis-IsDigest}
use razor_trust.Workflow.Settled.{score_fails_closed}
use razor_trust.Features.Statistics.{
  bin_from, bin_of, increment, histogram, kl_terms, histogram_probabilities, has_str,
  coefficient_of_variation, entropy, counter,
}
use razor_trust.Features.{
  interarrival_seconds, count_if, hourly_counts, hourly_volume_slope, accepts, insert_by_time,
  sort_by_time, visible, build_point_in_time_features,
}
use razor_trust.Workflow.Score.{score, draft}
use razor_trust.Evidence.{legacy_assess}
use razor_trust.Policy.{check}
use razor_trust.Audit.{verify_from, verify, genesis_hash, complete, parses, records}
use razor_trust.Common.{ℕ, ◌≡◌, refl, inr, true, false, none, some, [], ◌∷◌}
use razor_trust.Common.Exec.{ok, err, runtime_error}
use razor_trust.Common.Dict.{lookup}
use razor_trust.Domain.{DecisionResponse, HoldDecision, human_review}
use razor_trust.Workflow.State.{World, Parts, Stamps}
use razor_trust.Repository.State.{empty}
use razor_trust.Tests.Fixtures.{naturals, limits}
use razor_trust.Tests.Rules.{costs}
use razor_trust.Tests.Windows.{held, at_hold}

abbrev unavailable : Parts naturals
unavailable = record {
  model_version = "unavailable-model@1";
  predict = λ f c. err runtime_error;
  thresholds = limits;
  human_only = false;
  costs = costs;
  cost_matrix_sha256 = "";
  policy = λ c. ok (check naturals c);
  assess = λ hold e. legacy_assess naturals hold e;
  hashing = record { canonical = λ e h. h; sha256_hex = λ m. genesis_hash };
  evidence_release_risk_cap = 35;
}

abbrev stamps : Stamps
stamps = record {
  snapshot_id = 31;
  snapshot_at = 32;
  trace_id = 33;
  decided_at = 34;
  event_id = 35;
  logged_at = 36;
  saved_at = 37;
}

abbrev world : World ℕ
world = record { repository = record empty { cases = (7, held) ∷ [] }; ledger = [] }

score_fails_closed_example :
    (d : DecisionResponse ℕ) × (w' : World ℕ) × (score naturals unavailable held at_hold none stamps
        world
      ≡ (ok d, w'))
    × (d.decision ≡ HoldDecision.escalate)
    × (lookup 7 w'.repository.cases ≡ some (record held { state = human_review; updated_at = 37 }))
    × (verify unavailable.hashing w'.ledger ≡ ok (true, 1))
unfolding lookup records parses complete verify verify_from draft build_point_in_time_features
    visible sort_by_time insert_by_time kl_terms histogram_probabilities histogram bin_of bin_from
    increment accepts hourly_volume_slope hourly_counts count_if has_str interarrival_seconds
    coefficient_of_variation entropy counter
score_fails_closed_example =
    score_fails_closed naturals unavailable (λ m. genesis-IsDigest) held held at_hold none stamps
      world runtime_error [] refl refl refl (λ c. inr refl) refl refl
