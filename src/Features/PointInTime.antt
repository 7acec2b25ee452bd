-- ===== src/Features/PointInTime.antt =====
-- The features use nothing that happened after the hold.
use mathlib.Core.Path.{ap, fun_ext}
use razor_trust.Features.{
  share, slope_of, has_str, hour, divergence, and_then, accepted, amounts_of, scored,
  build_point_in_time_features, features_from, features_of, hourly_volume_slope,
  interarrival_seconds, Platform, is_visible, count_if, is_known, sort_by_time, hourly_counts,
  insert_by_time, visible,
}
use razor_trust.Common.{
  not, replicate, ◌-◌, ◌*◌, ◌∙◌, sym, ap, sym, ltb, ℕ, ◌≡◌, refl, inl, inr, Bool, Option, none,
  some, List, [], ◌∷◌, map, arith, leb, if◌then◌else◌, Bool-cases, length,
}
use razor_trust.Domain.{HoldEvaluationInput, HoldCase, TransactionEvent}

-- A time as it is known at `now`: a later one is not.
abbrev hide : ℕ → Option ℕ → Option ℕ
hide now none = none
hide now (some t) = if leb t now then some t else none

is_known-hide : (now : ℕ) (t : Option ℕ) → is_known now (hide now t) ≡ is_known now t
is_known-hide now none = refl
is_known-hide now (some t) = elim (Bool-cases (leb t now)) [ inl k ↦ rw k k | inr k ↦ rw k refl ]

module _ {F : Type 0} (now : ℕ) where
  -- A transaction as it is known at `now`: later refunds and chargebacks are not.
  abbrev as_known : TransactionEvent F → TransactionEvent F
  as_known e = record e {
    refund_timestamp = hide now e.refund_timestamp;
    chargeback_timestamp = hide now e.chargeback_timestamp;
  }

  -- The transactions up to `now`, as they are known then.
  unfoldable pub known : List (TransactionEvent F) → List (TransactionEvent F)
  known [] = []
  known (e ∷ es) = let rest = known es in if leb e.timestamp now then as_known e ∷ rest else rest

  insert_by_time-as_known :
      (x : TransactionEvent F) (es : List (TransactionEvent F))
      → insert_by_time (as_known x) (map as_known es) ≡ map as_known (insert_by_time x es)
  unfolding insert_by_time
  insert_by_time-as_known x [] = refl
  insert_by_time-as_known x (y ∷ ys) = elim (Bool-cases (leb x.timestamp y.timestamp)) [
    | inl before ↦ rw before refl
    | inr after ↦ rw after (rw (insert_by_time-as_known x ys) refl)
  ]

  sort_by_time-as_known :
      (es : List (TransactionEvent F))
      → sort_by_time (map as_known es) ≡ map as_known (sort_by_time es)
  unfolding sort_by_time
  sort_by_time-as_known [] = refl
  sort_by_time-as_known (x ∷ es) =
      rw (sort_by_time-as_known es) (insert_by_time-as_known x (sort_by_time es))

  count_if-as_known :
      (f : TransactionEvent F → Bool) (es : List (TransactionEvent F))
      → ((e : TransactionEvent F) → f (as_known e) ≡ f e)
      → count_if f (map as_known es) ≡ count_if f es
  unfolding count_if
  count_if-as_known f [] h = refl
  count_if-as_known f (e ∷ es) h = rw (h e) (rw (count_if-as_known f es h) refl)

  length-as_known : (es : List (TransactionEvent F)) → length (map as_known es) ≡ length es
  length-as_known [] = refl
  length-as_known (e ∷ es) = rw (length-as_known es) refl

  -- What is read off an event and is not hidden stays.
  map-as_known :
      {B : Type 0} (f : TransactionEvent F → B) (es : List (TransactionEvent F))
      → ((e : TransactionEvent F) → f (as_known e) ≡ f e)
      → map f (map as_known es) ≡ map f es
  map-as_known f [] h = refl
  map-as_known f (e ∷ es) h = rw (h e) (rw (map-as_known f es h) refl)

  hourly_counts-as_known :
      (start window_hours : ℕ) (es : List (TransactionEvent F)) (counts : List ℕ)
      → hourly_counts start window_hours (map as_known es) counts
        ≡ hourly_counts start window_hours es counts
  unfolding hourly_counts
  hourly_counts-as_known start window_hours [] counts = refl
  hourly_counts-as_known start window_hours (e ∷ es) counts =
      hourly_counts-as_known start window_hours es _

-- Of what is known at the hold, the same events are visible.
visible-known :
    {F : Type 0} (hold : HoldCase) (start : ℕ) (es : List (TransactionEvent F))
    → visible hold start (known hold.triggered_at es)
      ≡ map (as_known hold.triggered_at) (visible hold start es)
unfolding visible known
visible-known hold start [] = refl
visible-known hold start (e ∷ es) =
    let next = visible-known hold start es in
    elim (Bool-cases (leb e.timestamp hold.triggered_at)) [
      | inl early ↦ rw early (elim (Bool-cases (is_visible hold start e)) [
        | inl seen ↦ ground (arith, next)
        | inr unseen ↦ ground (arith, next)
      ])
      | inr late ↦ ground (arith, next)
    ]

module _ (p : Platform) (hold : HoldCase) where
  open p use {Float}

  interarrival-as_known :
      (now : ℕ) (es : List (TransactionEvent Float))
      → interarrival_seconds p (map (as_known now) es) ≡ interarrival_seconds p es
  unfolding interarrival_seconds
  interarrival-as_known now [] = refl
  interarrival-as_known now (a ∷ []) = refl
  interarrival-as_known now (a ∷ b ∷ es) = rw (interarrival-as_known now (b ∷ es)) refl

  hourly_volume_slope-as_known :
      (now window_hours : ℕ) (es : List (TransactionEvent Float))
      → hourly_volume_slope p (map (as_known now) es) window_hours now
        ≡ hourly_volume_slope p es window_hours now
  unfolding hourly_volume_slope
  hourly_volume_slope-as_known now window_hours es = ap (slope_of p window_hours) (
      hourly_counts-as_known now (now - window_hours * hour) window_hours es
        (replicate window_hours 0))

  share-as_known :
      (now : ℕ) (f : TransactionEvent Float → Bool) (es : List (TransactionEvent Float))
      → ((e : TransactionEvent Float) → f (as_known now e) ≡ f e)
      → share p f (map (as_known now) es) ≡ share p f es
  share-as_known now f es h = rw (share, count_if-as_known now f es h, length-as_known now es)

  features_of-as_known :
      (x : HoldEvaluationInput Float) (es : List (TransactionEvent Float)) (kl : Float)
      → features_of p hold x (map (as_known hold.triggered_at) es) kl ≡ features_of p hold x es kl
  features_of-as_known x es kl =
      let now = hold.triggered_at in
      let b = x.baseline in
      rw (
        hourly_volume_slope-as_known now x.window_hours es,
        share-as_known now (λ e. not (has_str e.device_fingerprint b.known_devices)) es (λ e. refl),
        share-as_known now (λ e. not (has_str e.customer_geo b.known_geos)) es (λ e. refl),
        share-as_known now (λ e. is_known now e.refund_timestamp) es
            (λ e. is_known-hide now e.refund_timestamp),
        share-as_known now (λ e. is_known now e.chargeback_timestamp) es
            (λ e. is_known-hide now e.chargeback_timestamp),
        share-as_known now (λ e. not e.approved) es (λ e. refl),
        length-as_known now es,
        map-as_known now (λ e. e.amount) es (λ e. refl),
        map-as_known now (λ e. e.device_fingerprint) es (λ e. refl),
        map-as_known now (λ e. e.customer_geo) es (λ e. refl),
        interarrival-as_known now es,
      )

  scored-as_known :
      (x : HoldEvaluationInput Float) (es : List (TransactionEvent Float))
      → scored p hold x (map (as_known hold.triggered_at) es) ≡ scored p hold x es
  scored-as_known x es =
      let now = hold.triggered_at in
      let amounts = amounts_of p (map (as_known now) es) in
      let same : (λ ts. accepted p (features_of p hold x (map (as_known now) es) (p.sum ts)))
          ≡ (λ ts. accepted p (features_of p hold x es (p.sum ts))) =
        fun_ext (λ ts. ap (accepted p) (features_of-as_known x es (p.sum ts))) in
      ap (and_then (divergence p x amounts)) same
      ∙ ap
          (λ am.
            and_then (divergence p x am) (λ ts. accepted p (features_of p hold x es (p.sum ts))))
          (map-as_known now (λ e. e.amount) es (λ e. refl))

  features_from-as_known :
      (x : HoldEvaluationInput Float) (es : List (TransactionEvent Float))
      → features_from p hold x (map (as_known hold.triggered_at) es) ≡ features_from p hold x es
  features_from-as_known x [] = refl
  features_from-as_known x (e ∷ es) = scored-as_known x (e ∷ es)

  build_known :
      (x : HoldEvaluationInput Float)
      → build_point_in_time_features p hold
          (record x { transactions = known hold.triggered_at x.transactions })
        ≡ build_point_in_time_features p hold x
  unfolding build_point_in_time_features
  build_known x = elim (Bool-cases (ltb hold.triggered_at (x.window_hours * hour))) [
    | inl early ↦ rw early refl
    | inr late ↦
        let start = hold.triggered_at - x.window_hours * hour in
        rw late (
          rw (visible-known hold start x.transactions) (
            rw (sort_by_time-as_known hold.triggered_at (visible hold start x.transactions))
              (features_from-as_known x (sort_by_time (visible hold start x.transactions)))))
  ]

  -- Two inputs that agree on the baseline, the window and what is known at the hold, which are the
  -- transactions up to its trigger without any later refund or chargeback, give the same features, or
  -- the same exception.
  pub build_point_in_time :
      (x y : HoldEvaluationInput Float)
      → x.baseline ≡ y.baseline
      → x.window_hours ≡ y.window_hours
      → known hold.triggered_at x.transactions ≡ known hold.triggered_at y.transactions
      → build_point_in_time_features p hold x ≡ build_point_in_time_features p hold y
  unfolding build_point_in_time_features
  build_point_in_time x y b w k =
      let same : build_point_in_time_features p hold
            (record x { transactions = known hold.triggered_at x.transactions })
          ≡ build_point_in_time_features p hold
              (record y { transactions = known hold.triggered_at y.transactions }) =
        rw b (rw w (rw k refl)) in
      sym (build_known x) ∙ same ∙ build_known y
