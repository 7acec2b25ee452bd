-- ===== src/Timeline/Firewall.antt =====
-- What blocks a snapshot.
use razor_trust.Common.Exec.{ok_injective, ok}
use razor_trust.Timeline.Snapshot.{
  latest_items, undigested, digested, hour, build_point_in_time_snapshot, timeline_metrics,
  Observations, in_window,
}
use razor_trust.Timeline.Latest.{in_event_window, keep_if}
use razor_trust.Timeline.Observations.{
  Severity, critical, warning, missing_provider_event_time, PointInTimeMerchantSnapshot, IssueCode,
  DataQualityIssue,
}
use razor_trust.Timeline.Quality.{
  currencies_of, over_refunded, is_skewed, issue_if, status_for, WindowItems, is_critical,
  lacks_time, is_empty, quality_issues, currency_issue, is_blocked, quality_report, all_times,
}
use razor_trust.Common.{
  ◌*◌, ◌-◌, ℕ, String, ◌≡◌, refl, inl, inr, Bool, true, false, not, ◌&&◌, ◌||◌, Option, List, [],
  ◌∷◌, ◌++◌, map, arith, str_eq, leb, ◌==◌, Bool-cases, Option-cases, length,
}

abbrev pub any {ℓ} : {A : Type ℓ} → (A → Bool) → List A → Bool
any p [] = false
any p (x ∷ xs) = p x || any p xs

-- INR, or no currency at all.
abbrev pub only_inr : List String → Bool
only_inr [] = true
only_inr (c ∷ []) = str_eq c "INR"
only_inr (c ∷ d ∷ cs) = false

abbrev pub is_missing_time : DataQualityIssue → Bool
is_missing_time i = elim i.code [ missing_provider_event_time n ↦ true | _ ↦ false ]

abbrev pub items_of : PointInTimeMerchantSnapshot → WindowItems
items_of x = record {
  payment_items = x.payments;
  refund_items = x.refunds;
  dispute_items = x.disputes;
  settlement_items = x.settlements;
}

module _ {A : Type 0} (p : A → Bool) where
  any-append : (xs ys : List A) → any p (xs ++ ys) ≡ (any p xs || any p ys)
  any-append [] ys = refl
  any-append (x ∷ xs) ys = ground (arith, any-append xs ys)

  any-count : (xs : List A) → not (length (keep_if p xs) == 0) ≡ any p xs
  unfolding keep_if
  any-count [] = refl
  any-count (x ∷ xs) = ground (arith, any-count xs)

  any-is_empty : (xs : List A) → not (is_empty (keep_if p xs)) ≡ any p xs
  unfolding keep_if
  any-is_empty [] = refl
  any-is_empty (x ∷ xs) = ground (arith, any-is_empty xs)

-- What is in the window has a provider time.
any-in_window :
    {A : Type 0} (created : A → Option ℕ) (at : A → ℕ) (start as_of : ℕ) (xs : List A)
    → any lacks_time
        (map (λ x. (created x, at x)) (keep_if (λ x. in_event_window start as_of (created x)) xs))
      ≡ false
unfolding keep_if
any-in_window created at start as_of [] = refl
any-in_window created at start as_of (x ∷ xs) = elim (Option-cases (created x)) [
  | inl e ↦ rw e (any-in_window created at start as_of xs)
  | inr (c, e) ↦ elim (Bool-cases (leb start c && leb c as_of)) [
    | inl b ↦ rw (e, b, e) (any-in_window created at start as_of xs)
    | inr b ↦ rw (e, b) (any-in_window created at start as_of xs)
  ]
]

lacks_time-in_window :
    (start as_of : ℕ) (w : WindowItems)
    → any lacks_time (all_times (in_window start as_of w)) ≡ false
unfolding all_times in_window
lacks_time-in_window start as_of w = simp (any-append, any-in_window)

critical_currency : (cs : List String) → any is_critical (currency_issue cs) ≡ not (only_inr cs)
unfolding currency_issue
critical_currency [] = refl
critical_currency (c ∷ []) = ground arith
critical_currency (c ∷ d ∷ cs) = refl

critical_if : (b : Bool) (c : IssueCode) → any is_critical (issue_if b critical c) ≡ b
critical_if true c = refl
critical_if false c = refl

warning_if : (b : Bool) (c : IssueCode) → any is_critical (issue_if b warning c) ≡ false
warning_if true c = refl
warning_if false c = refl

blocked_lem : (c w : ℕ) → is_blocked (status_for c w) ≡ not (c == 0)
blocked_lem c w = ground arith

or_false : (b : Bool) → (b || false) ≡ b
or_false true = refl
or_false false = refl

quality_report-blocked :
    (w : WindowItems) (unresolved as_of now : ℕ)
    → any lacks_time (all_times w) ≡ false
    → is_blocked (quality_report w unresolved as_of now).status ≡ (
        not (unresolved == 0)
        || any is_skewed (all_times w)
        || any over_refunded w.payment_items
        || not (only_inr (currencies_of w)))
unfolding quality_report quality_issues
quality_report-blocked w unresolved as_of now h = rw blocked_lem (
    rw (any-count is_critical) (
      simp (
        any-append, any-count, any-is_empty, critical_if, warning_if, critical_currency, h,
        or_false,
      )))

missing_if :
    (b : Bool) (sev : Severity) (c : IssueCode)
    → any is_missing_time (issue_if b sev c)
      ≡ (b && is_missing_time (record { code = c; severity = sev }))
missing_if true sev c = or_false _
missing_if false sev c = refl

missing_currency : (cs : List String) → any is_missing_time (currency_issue cs) ≡ false
unfolding currency_issue
missing_currency [] = refl
missing_currency (c ∷ []) = ground arith
missing_currency (c ∷ d ∷ cs) = refl

and_false : (b : Bool) → (b && false) ≡ false
and_false true = refl
and_false false = refl

quality_report-missing :
    (w : WindowItems) (unresolved as_of now : ℕ)
    → any lacks_time (all_times w) ≡ false
    → any is_missing_time (quality_report w unresolved as_of now).issues ≡ false
unfolding quality_report quality_issues
quality_report-missing w unresolved as_of now h =
    simp (any-append, any-count, missing_if, missing_currency, h, and_false)

module _ (digest : PointInTimeMerchantSnapshot → String) (account_id : String)
    (as_of lookback_hours : ℕ) (o : Observations) (unresolved now : ℕ)
    (x : PointInTimeMerchantSnapshot) where
  abbrev items_in_window : WindowItems
  items_in_window = in_window (as_of - lookback_hours * hour) as_of (latest_items as_of o)

  snapshot_lem :
      build_point_in_time_snapshot digest account_id as_of lookback_hours o unresolved now ≡ ok x
      → digested digest (undigested account_id as_of lookback_hours unresolved now items_in_window)
        ≡ x
  unfolding build_point_in_time_snapshot
  snapshot_lem h = elim (Bool-cases (leb 1 lookback_hours && leb lookback_hours 720)) [
    | inl b ↦ ok_injective (rw b at h)
    | inr b ↦ ground (arith, rw b at h)
  ]

  -- A snapshot that is returned is BLOCKED exactly where processor events are unresolved, an
  -- item has a provider time more than five minutes after it was observed, a payment has more
  -- refunded than its amount, or its currencies are other than none or INR alone.
  pub snapshot_blocked :
      build_point_in_time_snapshot digest account_id as_of lookback_hours o unresolved now ≡ ok x
      → is_blocked x.data_quality.status ≡ (
          not (unresolved == 0)
          || any is_skewed (all_times (items_of x))
          || any over_refunded x.payments
          || not (only_inr x.metrics.currencies))
  unfolding timeline_metrics
  snapshot_blocked h =
      rw⁻¹ (snapshot_lem h) (
        quality_report-blocked items_in_window unresolved as_of now
          (lacks_time-in_window _ as_of _))

  -- No snapshot that is returned reports MISSING_PROVIDER_EVENT_TIME, whatever the observations:
  -- those without a provider time are dropped before the report is made.
  pub snapshot_never_lacks_time :
      build_point_in_time_snapshot digest account_id as_of lookback_hours o unresolved now ≡ ok x
      → any is_missing_time x.data_quality.issues ≡ false
  snapshot_never_lacks_time h =
      rw⁻¹ (snapshot_lem h) (
        quality_report-missing items_in_window unresolved as_of now
          (lacks_time-in_window _ as_of _))
