-- ===== src/Timeline/Snapshot.antt =====
-- `build_point_in_time_snapshot` of src/razortrust/processor_timeline.py.
use razor_trust.Timeline.Latest.{in_event_window, latest_as_of, sort_by, keep_if}
use razor_trust.Common.Table.{entry_at, put_entry, Table}
use razor_trust.Timeline.Observations.{
  SettlementObservation, DisputeObservation, TimelineMetrics, RefundObservation, PaymentObservation,
  PointInTimeMerchantSnapshot,
}
use razor_trust.Timeline.Quality.{
  text_before, feature_readiness, currencies_of, quality_report, WindowItems,
}
use razor_trust.Common.{
  ℕ, ◌+◌, ◌-◌, ◌*◌, String, not, ◌&&◌, ◌||◌, none, some, List, [], ◌∷◌, map, str_eq, leb,
  if◌then◌else◌, length,
}
use razor_trust.Common.Exec.{Result, ok, err, value_error}

abbrev pub hour : ℕ
hour = 3600000000

abbrev pub method_of : PaymentObservation → String
method_of x = elim x.method [ none ↦ "unknown" | some m ↦ if str_eq m "" then "unknown" else m ]

-- `Counter`
unfoldable pub method_counts : List String → Table ℕ → Table ℕ
method_counts [] t = t
method_counts (m ∷ ms) t =
    method_counts ms (put_entry m (elim (entry_at m t) [ none ↦ 1 | some n ↦ n + 1 ]) t)

abbrev pub sorted_counts : Table ℕ → Table ℕ
sorted_counts t = sort_by (λ a b. text_before a.0 b.0) t

abbrev pub sum_of {ℓ} : {A : Type ℓ} → (A → ℕ) → List A → ℕ
sum_of f [] = 0
sum_of f (x ∷ xs) = f x + sum_of f xs

unfoldable pub timeline_metrics : WindowItems → (unresolved : ℕ) → TimelineMetrics
timeline_metrics w unresolved = record {
  payment_count = length w.payment_items;
  captured_payment_count = length (keep_if (λ x. x.captured) w.payment_items);
  failed_payment_count = length (keep_if (λ x. str_eq x.status "failed") w.payment_items);
  gross_captured_amount = sum_of (λ x. x.amount) (keep_if (λ x. x.captured) w.payment_items);
  amount_refunded = sum_of (λ x. x.amount_refunded) w.payment_items;
  refund_count = length w.refund_items;
  processed_refund_count = length (keep_if (λ x. str_eq x.status "processed") w.refund_items);
  dispute_count = length w.dispute_items;
  open_dispute_count = length (
      keep_if
        (λ x. not (str_eq x.status "won" || str_eq x.status "lost" || str_eq x.status "closed"))
        w.dispute_items);
  settlement_count = length w.settlement_items;
  methods = sorted_counts (method_counts (map method_of w.payment_items) []);
  currencies = currencies_of w;
  unresolved_events = unresolved;
}

-- The observations that are given.
pub record Observations : Type 0 where
  pub payment_observations : List PaymentObservation
  pub refund_observations : List RefundObservation
  pub dispute_observations : List DisputeObservation
  pub settlement_observations : List SettlementObservation

-- The newest known observation of every entity.
unfoldable pub latest_items : (as_of : ℕ) → Observations → WindowItems
latest_items as_of o = record {
  payment_items =
      latest_as_of (λ x. x.payment_id) (λ x. x.observed_at) as_of o.payment_observations;
  refund_items = latest_as_of (λ x. x.refund_id) (λ x. x.observed_at) as_of o.refund_observations;
  dispute_items =
      latest_as_of (λ x. x.dispute_id) (λ x. x.observed_at) as_of o.dispute_observations;
  settlement_items =
      latest_as_of (λ x. x.settlement_id) (λ x. x.observed_at) as_of o.settlement_observations;
}

-- Those of them whose event is in the window.
unfoldable pub in_window : (window_start as_of : ℕ) → WindowItems → WindowItems
in_window start as_of w = record {
  payment_items = keep_if (λ x. in_event_window start as_of x.provider_created_at) w.payment_items;
  refund_items = keep_if (λ x. in_event_window start as_of x.provider_created_at) w.refund_items;
  dispute_items = keep_if (λ x. in_event_window start as_of x.provider_created_at) w.dispute_items;
  settlement_items =
      keep_if (λ x. in_event_window start as_of x.provider_created_at) w.settlement_items;
}

-- The snapshot of the items, with its digest still to come; `digest` is SHA-256 of the JSON text of
-- the other fields.
abbrev pub undigested :
    (account_id : String) (as_of lookback_hours unresolved now : ℕ)
    → WindowItems
    → PointInTimeMerchantSnapshot
undigested account_id as_of lookback_hours unresolved now w = record {
  account_id = account_id;
  as_of = as_of;
  window_start = as_of - lookback_hours * hour;
  lookback_hours = lookback_hours;
  payments = w.payment_items;
  refunds = w.refund_items;
  disputes = w.dispute_items;
  settlements = w.settlement_items;
  metrics = timeline_metrics w unresolved;
  data_quality = quality_report w unresolved as_of now;
  feature_readiness = feature_readiness (quality_report w unresolved as_of now);
  snapshot_sha256 = "";
}

module _ (digest : PointInTimeMerchantSnapshot → String) where
  abbrev pub digested : PointInTimeMerchantSnapshot → PointInTimeMerchantSnapshot
  digested x = record x { snapshot_sha256 = digest x }

  unfoldable pub build_point_in_time_snapshot :
      (account_id : String) (as_of lookback_hours : ℕ)
      → Observations
      → (unresolved now : ℕ) → Result PointInTimeMerchantSnapshot
  build_point_in_time_snapshot account_id as_of lookback_hours o unresolved now =
      if not (leb 1 lookback_hours && leb lookback_hours 720)
      then err value_error
      else ok (
          digested (
            undigested account_id as_of lookback_hours unresolved now
              (in_window (as_of - lookback_hours * hour) as_of (latest_items as_of o))))
