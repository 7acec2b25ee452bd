-- ===== src/Features.antt =====
-- Point-in-time features: src/razortrust/features.py.
pub mod Statistics
pub mod PointInTime
pub mod Baseline
use razor_trust.Features.Statistics.{
  entropy, coefficient_of_variation, histogram_probabilities, has_str, z_score, kl_terms, slope_of,
  increment,
}
use razor_trust.Common.{
  ℕ, zero, suc, ◌+◌, ◌-◌, ◌*◌, ◌/◌, ◌%◌, ◌≤◌, ◌<◌, String, ◌≡◌, refl, sym, ap, ◌∙◌, ◌≢◌, ◌↔◌, ◌⊎◌,
  inl, inr, Bool, true, false, not, ◌&&◌, ◌||◌, Option, none, some, List, [], ◌∷◌, ◌++◌, map, arith,
  str_eq, eq_iff, ltb, leb, ◌==◌, if◌then◌else◌, is_some, ==_iff, ==_refl, Bool-cases, Option-cases,
  length, take, replicate, last, length-append, All, All-append, All_mono,
}
use razor_trust.Common.Exec.{
  Exception, Result, ok, err, and_then, Exec, pure, raise, lift, gets, or_raise, modify, raise_if,
  ◌>>=◌, ◌>>◌, Result-cases, hold_not_found, invalid_transition, key_error, arithmetic_error,
  runtime_error, value_error, audit_format_error, policy_unavailable, authorization_unavailable,
  assertion_error, index_error,
}
use razor_trust.Common.Dict.{Dict, lookup, insert, lookup-insert, lookup-empty}
use razor_trust.Common.Platform.{Platform, IsTotal}
use razor_trust.Domain.{
  HoldEvaluationInput, HoldCase, TransactionEvent, FeatureVector, HoldDecision, release,
  evidence_needed, HoldState, opened, awaiting_evidence, evidence_submitted, resolved, human_review,
  denied,
}

abbrev pub hour : ℕ
hour = 3600000000

-- A refund or a chargeback counts from its own time on.
abbrev pub is_known : ℕ → Option ℕ → Bool
is_known now none = false
is_known now (some t) = leb t now

module _ {F : Type 0} where
  -- `sum(test(event) for event in events)`
  unfoldable pub count_if : (TransactionEvent F → Bool) → List (TransactionEvent F) → ℕ
  count_if f [] = 0
  count_if f (e ∷ es) = let rest = count_if f es in if f e then suc rest else rest

  -- The events of the hold's merchant between the start of the window and the hold.
  abbrev pub is_visible : HoldCase → ℕ → TransactionEvent F → Bool
  is_visible hold start e =
      str_eq e.merchant_id hold.merchant_id
      && (leb start e.timestamp && leb e.timestamp hold.triggered_at)

  unfoldable pub visible : HoldCase → ℕ → List (TransactionEvent F) → List (TransactionEvent F)
  visible hold start [] = []
  visible hold start (e ∷ es) =
      let rest = visible hold start es in if is_visible hold start e then e ∷ rest else rest

  -- `sorted(events, key=timestamp)`, which keeps the order of equal keys
  unfoldable pub insert_by_time :
      TransactionEvent F → List (TransactionEvent F) → List (TransactionEvent F)
  insert_by_time x [] = x ∷ []
  insert_by_time x (y ∷ ys) =
      let rest = insert_by_time x ys in if leb x.timestamp y.timestamp then x ∷ y ∷ ys else y ∷ rest

  unfoldable pub sort_by_time : List (TransactionEvent F) → List (TransactionEvent F)
  sort_by_time [] = []
  sort_by_time (x ∷ xs) = insert_by_time x (sort_by_time xs)

  -- `bucket` is not negative: no event is before the start.
  unfoldable pub hourly_counts :
      (start window_hours : ℕ) → List (TransactionEvent F) → List ℕ → List ℕ
  hourly_counts start window_hours [] counts = counts
  hourly_counts start window_hours (e ∷ es) counts =
      let bucket = (e.timestamp - start) / hour in
      hourly_counts start window_hours es
        (increment (if ltb bucket (window_hours - 1) then bucket else window_hours - 1) counts)

module _ (p : Platform) where
  open p use {
    Float, lt, le, add, sub, mul, div, neg, square, sum, log, fmean, pstdev, of_int, lit, is_finite,
    total_seconds,
  }

  unfoldable pub hourly_volume_slope :
      List (TransactionEvent Float) → (window_hours end_time : ℕ) → Float
  hourly_volume_slope events window_hours end_time = slope_of p window_hours (
      hourly_counts (end_time - window_hours * hour) window_hours events (replicate window_hours 0))

  abbrev pub is_ratio : Float → Bool
  is_ratio x = le (lit 0 0) x && le x (lit 1 0)

  -- The field constraints of `FeatureVector`; a violation is a `ValueError`.
  unfoldable pub accepts : FeatureVector Float → Bool
  accepts f =
      is_finite f.volume_delta_z
      && is_finite f.gmv_delta_z
      && is_finite f.ticket_size_delta_z
      && (is_finite f.new_device_ratio && is_ratio f.new_device_ratio)
      && (is_finite f.new_geo_ratio && is_ratio f.new_geo_ratio)
      && is_finite f.refund_rate_delta_z
      && is_finite f.chargeback_rate_delta_z
      && (is_finite f.failed_auth_ratio && is_ratio f.failed_auth_ratio)
      && is_finite f.volume_trend_slope
      && (is_finite f.interarrival_time_cv && le (lit 0 0) f.interarrival_time_cv)
      && (is_finite f.device_entropy && le (lit 0 0) f.device_entropy)
      && (is_finite f.geo_entropy && le (lit 0 0) f.geo_entropy)
      && (is_finite f.amount_distribution_kl && le (lit 0 0) f.amount_distribution_kl)

  -- The seconds between each event and the next.
  unfoldable pub interarrival_seconds : List (TransactionEvent Float) → List Float
  interarrival_seconds [] = []
  interarrival_seconds (a ∷ []) = []
  interarrival_seconds (a ∷ b ∷ es) =
      total_seconds (b.timestamp - a.timestamp) ∷ interarrival_seconds (b ∷ es)

  abbrev pub amounts_of : List (TransactionEvent Float) → List Float
  amounts_of es = map (λ e. e.amount) es

  abbrev pub share : (TransactionEvent Float → Bool) → List (TransactionEvent Float) → Float
  share f es = div (of_int (count_if f es)) (of_int (length es))

  abbrev pub features_of :
      HoldCase
      → HoldEvaluationInput Float
      → List (TransactionEvent Float)
      → Float
      → FeatureVector Float
  features_of hold x es kl =
      let b = x.baseline in
      record {
        volume_delta_z = z_score p (of_int (length es)) b.volume_mean b.volume_std;
        gmv_delta_z = z_score p (sum (amounts_of es)) b.gmv_mean b.gmv_std;
        ticket_size_delta_z =
            z_score p (fmean (amounts_of es)) b.ticket_size_mean b.ticket_size_std;
        new_device_ratio = share (λ e. not (has_str e.device_fingerprint b.known_devices)) es;
        new_geo_ratio = share (λ e. not (has_str e.customer_geo b.known_geos)) es;
        refund_rate_delta_z =
            z_score p (share (λ e. is_known hold.triggered_at e.refund_timestamp) es)
              b.refund_rate_mean b.refund_rate_std;
        chargeback_rate_delta_z =
            z_score p (share (λ e. is_known hold.triggered_at e.chargeback_timestamp) es)
              b.chargeback_rate_mean b.chargeback_rate_std;
        failed_auth_ratio = share (λ e. not e.approved) es;
        volume_trend_slope = hourly_volume_slope es x.window_hours hold.triggered_at;
        interarrival_time_cv = coefficient_of_variation p (interarrival_seconds es);
        device_entropy = entropy p (map (λ e. e.device_fingerprint) es);
        geo_entropy = entropy p (map (λ e. e.customer_geo) es);
        amount_distribution_kl = kl;
      }

  abbrev pub accepted : FeatureVector Float → Result (FeatureVector Float)
  accepted f = if accepts f then ok f else err value_error

  abbrev pub divergence : HoldEvaluationInput Float → List Float → Result (List Float)
  divergence x amounts =
      kl_terms p (histogram_probabilities p amounts x.baseline.amount_bin_edges)
        x.baseline.amount_bin_probabilities

  -- The features of events that are not none.
  abbrev pub scored :
      HoldCase
      → HoldEvaluationInput Float
      → List (TransactionEvent Float)
      → Result (FeatureVector Float)
  scored hold x es =
      and_then (divergence x (amounts_of es)) (λ ts. accepted (features_of hold x es (sum ts)))

  abbrev pub features_from :
      HoldCase
      → HoldEvaluationInput Float
      → List (TransactionEvent Float)
      → Result (FeatureVector Float)
  features_from hold x [] = err value_error
  features_from hold x (e ∷ es) = scored hold x (e ∷ es)

  -- The start of the window is a datetime, or its subtraction an `OverflowError`.
  unfoldable pub build_point_in_time_features :
      HoldCase → HoldEvaluationInput Float → Result (FeatureVector Float)
  build_point_in_time_features hold x =
      if ltb hold.triggered_at (x.window_hours * hour)
      then err arithmetic_error
      else features_from hold x
          (sort_by_time (visible hold (hold.triggered_at - x.window_hours * hour) x.transactions))
