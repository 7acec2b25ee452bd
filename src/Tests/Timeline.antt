-- ===== src/Tests/Timeline.antt =====
-- The theorems about point-in-time snapshots, on two observations of a payment.
use razor_trust.Timeline.Knowledge.{snapshot_knowledge}
use razor_trust.Timeline.Latest.{insert_by, sort_by, collect_latest, latest_as_of, keep_if}
use razor_trust.Timeline.Firewall.{
  snapshot_blocked, only_inr, items_of, snapshot_never_lacks_time, is_missing_time, any,
}
use razor_trust.Timeline.Observations.{PointInTimeMerchantSnapshot, PaymentObservation}
use razor_trust.Timeline.Quality.{over_refunded, all_times, is_skewed, is_blocked}
use razor_trust.Timeline.Snapshot.{
  undigested, digested, in_window, build_point_in_time_snapshot, latest_items, Observations,
}
use razor_trust.Common.{ℕ, String, ◌≡◌, refl, true, false, not, ◌||◌, none, some, List, [], ◌∷◌}
use razor_trust.Common.Exec.{Result, ok}

-- A payment of 500 that was made at 5000000000, with what was refunded when it was observed.
abbrev seen : (amount_refunded observed_at : ℕ) → PaymentObservation
seen amount_refunded observed_at = record {
  payment_id = "pay_1";
  status = "captured";
  amount = 500;
  currency = "INR";
  method = none;
  captured = true;
  amount_refunded = amount_refunded;
  refund_status = none;
  international = none;
  provider_created_at = some 5000000000;
  source_event_id = "evt_1";
  observed_at = observed_at;
}

abbrev observed : List PaymentObservation → Observations
observed xs = record {
  payment_observations = xs;
  refund_observations = [];
  dispute_observations = [];
  settlement_observations = [];
}

-- The second observation is later than the time of the snapshot.
abbrev early : Observations
early = observed (seen 0 6000000000 ∷ [])

abbrev late : Observations
late = observed (seen 0 6000000000 ∷ seen 900 8000000000 ∷ [])

abbrev unread : PointInTimeMerchantSnapshot → String
unread x = "digest"

abbrev at_two : Observations → Result PointInTimeMerchantSnapshot
at_two o = build_point_in_time_snapshot unread "acc_1" 7200000000 1 o 0 7200000000

snapshot_knowledge_example : at_two late ≡ at_two early
unfolding keep_if
snapshot_knowledge_example =
    snapshot_knowledge unread "acc_1" 7200000000 1 0 7200000000 late early (record {
      same_payments = refl;
      same_refunds = refl;
      same_disputes = refl;
      same_settlements = refl;
    })

abbrev early_snapshot : PointInTimeMerchantSnapshot
unfolding latest_items in_window latest_as_of collect_latest keep_if sort_by insert_by
early_snapshot = digested unread (
    undigested "acc_1" 7200000000 1 0 7200000000
      (in_window 3600000000 7200000000 (latest_items 7200000000 early)))

early_lem : at_two early ≡ ok early_snapshot
unfolding build_point_in_time_snapshot early_snapshot
early_lem = refl

snapshot_blocked_example : is_blocked early_snapshot.data_quality.status ≡ (
    false
    || any is_skewed (all_times (items_of early_snapshot))
    || any over_refunded early_snapshot.payments
    || not (only_inr early_snapshot.metrics.currencies))
snapshot_blocked_example =
    snapshot_blocked unread "acc_1" 7200000000 1 early 0 7200000000 early_snapshot early_lem

snapshot_never_lacks_time_example : any is_missing_time early_snapshot.data_quality.issues ≡ false
snapshot_never_lacks_time_example =
    snapshot_never_lacks_time unread "acc_1" 7200000000 1 early 0 7200000000 early_snapshot
      early_lem
