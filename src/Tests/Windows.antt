-- ===== src/Tests/Windows.antt =====
-- The theorem about features, on two inputs that differ only after the hold.
use razor_trust.Repository.Cases.{new_case}
use razor_trust.Features.{build_point_in_time_features}
use razor_trust.Features.PointInTime.{build_point_in_time, known}
use razor_trust.Common.{ℕ, ◌≡◌, refl, true, Option, none, some, List, [], ◌∷◌}
use razor_trust.Domain.{MerchantBaseline, HoldCase, TransactionEvent, HoldEvaluationInput}
use razor_trust.Tests.Fixtures.{naturals, request}

abbrev pub held : HoldCase
held = record (new_case request 7 1001 1002) { triggered_at = 90000000000 }

abbrev baseline : MerchantBaseline ℕ
baseline = record {
  volume_mean = 5;
  volume_std = 1;
  gmv_mean = 50;
  gmv_std = 10;
  ticket_size_mean = 10;
  ticket_size_std = 2;
  refund_rate_mean = 0;
  refund_rate_std = 1;
  chargeback_rate_mean = 0;
  chargeback_rate_std = 1;
  known_devices = "d1" ∷ [];
  known_geos = "IN" ∷ [];
  amount_bin_edges = 0 ∷ 10 ∷ 20 ∷ [];
  amount_bin_probabilities = 500 ∷ 500 ∷ [];
}

abbrev sale : ℕ → Option ℕ → TransactionEvent ℕ
sale timestamp chargeback = record {
  transaction_id = "t1";
  merchant_id = "m1";
  customer_id = none;
  ring_id = none;
  timestamp = timestamp;
  amount = 12;
  device_fingerprint = "d1";
  customer_geo = "IN";
  approved = true;
  refund_timestamp = none;
  chargeback_timestamp = chargeback;
}

abbrev pub input_of : List (TransactionEvent ℕ) → HoldEvaluationInput ℕ
input_of transactions = record {
  baseline = baseline;
  transactions = transactions;
  cohort = "pooled";
  window_hours = 24;
}

abbrev pub at_hold : HoldEvaluationInput ℕ
at_hold = input_of (sale 80000000000 none ∷ [])

-- The sale is charged back after the hold, and another one follows.
abbrev in_hindsight : HoldEvaluationInput ℕ
in_hindsight = input_of (sale 80000000000 (some 95000000000) ∷ sale 96000000000 none ∷ [])

build_point_in_time_example :
    build_point_in_time_features naturals held at_hold
    ≡ build_point_in_time_features naturals held in_hindsight
unfolding known
build_point_in_time_example = build_point_in_time naturals held at_hold in_hindsight refl refl refl
