-- ===== src/Timeline/Quality.antt =====
-- `_quality_report` and `_feature_readiness` of src/razortrust/processor_timeline.py.
use Prim.Native.Nat.{Ordering}
use Prim.Native.String.{compare}
use razor_trust.Timeline.Latest.{keep_if, sort_by}
use razor_trust.Timeline.Observations.{
  as_of_in_future, no_payment_history_in_window, warning, refund_exceeds_payment,
  provider_timestamp_in_future, mixed_currencies, SettlementObservation,
  missing_provider_event_time, pass, unresolved_pipeline_events, pass_with_warnings,
  unvalidated_currency, DisputeObservation, blocked, IssueCode, FeatureReadiness, RefundObservation,
  critical, PaymentObservation, Severity, QualityStatus, DataQualityIssue, DataQualityReport,
}
use razor_trust.Common.{
  ℕ, ◌+◌, String, Bool, true, false, not, ◌||◌, Option, none, some, List, [], ◌∷◌, ◌++◌, map,
  str_eq, ltb, ◌==◌, if◌then◌else◌, length, take,
}

-- Five minutes, in microseconds.
abbrev pub five_minutes : ℕ
five_minutes = 300000000

-- Python compares texts by code points.
abbrev pub text_before : String → String → Bool
text_before a b = elim (compare a b) [
  | Ordering.lt ↦ true
  | Ordering.eq ↦ true
  | Ordering.gt ↦ false
]

abbrev pub has_text : String → List String → Bool
has_text t [] = false
has_text t (x ∷ xs) = str_eq t x || has_text t xs

-- The set of the texts that are not empty.
unfoldable pub distinct : List String → List String
distinct [] = []
distinct (x ∷ xs) =
    let rest = distinct xs in if str_eq x "" || has_text x rest then rest else x ∷ rest

unfoldable pub sorted_set : List String → List String
sorted_set xs = sort_by text_before (distinct xs)

-- The `None`s are left out.
abbrev pub given_texts : List (Option String) → List String
given_texts [] = []
given_texts (none ∷ xs) = given_texts xs
given_texts (some x ∷ xs) = x ∷ given_texts xs

-- What the report reads of the observations.
pub record WindowItems : Type 0 where
  pub payment_items : List PaymentObservation
  pub refund_items : List RefundObservation
  pub dispute_items : List DisputeObservation
  pub settlement_items : List SettlementObservation

unfoldable pub currencies_of : WindowItems → List String
currencies_of w = sorted_set (
    map (λ (x : PaymentObservation). x.currency) w.payment_items
    ++ map (λ (x : RefundObservation). x.currency) w.refund_items
    ++ map (λ (x : DisputeObservation). x.currency) w.dispute_items
    ++ given_texts (map (λ (x : SettlementObservation). x.currency) w.settlement_items))

-- `all_items`, as their `provider_created_at` and `observed_at`
unfoldable pub all_times : WindowItems → List (Option ℕ × ℕ)
all_times w =
    map (λ (x : PaymentObservation). (x.provider_created_at, x.observed_at)) w.payment_items
    ++ map (λ (x : RefundObservation). (x.provider_created_at, x.observed_at)) w.refund_items
    ++ map (λ (x : DisputeObservation). (x.provider_created_at, x.observed_at)) w.dispute_items
    ++ map (λ (x : SettlementObservation). (x.provider_created_at, x.observed_at))
        w.settlement_items

abbrev pub lacks_time : Option ℕ × ℕ → Bool
lacks_time (none, t) = true
lacks_time (some c, t) = false

abbrev pub is_skewed : Option ℕ × ℕ → Bool
is_skewed (none, t) = false
is_skewed (some c, t) = ltb (t + five_minutes) c

abbrev pub over_refunded : PaymentObservation → Bool
over_refunded x = ltb x.amount x.amount_refunded

abbrev pub is_empty {ℓ} : {A : Type ℓ} → List A → Bool
is_empty [] = true
is_empty (x ∷ xs) = false

abbrev pub issue_if : Bool → Severity → IssueCode → List DataQualityIssue
issue_if b sev c = if b then record { code = c; severity = sev } ∷ [] else []

unfoldable pub currency_issue : List String → List DataQualityIssue
currency_issue [] = []
currency_issue (c ∷ []) = issue_if (not (str_eq c "INR")) critical (unvalidated_currency c)
currency_issue (c ∷ d ∷ cs) = issue_if true critical (mixed_currencies (c ∷ d ∷ cs))

-- `issues`, in their order
unfoldable pub quality_issues : WindowItems → (unresolved as_of now : ℕ) → List DataQualityIssue
quality_issues w unresolved as_of now =
    let missing = length (keep_if lacks_time (all_times w)) in
    let skewed = length (keep_if is_skewed (all_times w)) in
    let refunded = keep_if over_refunded w.payment_items in
    issue_if (not (unresolved == 0)) critical (unresolved_pipeline_events unresolved)
    ++ issue_if (not (missing == 0)) critical (missing_provider_event_time missing)
    ++ issue_if (not (skewed == 0)) critical (provider_timestamp_in_future skewed)
    ++ issue_if (not (is_empty refunded)) critical
        (refund_exceeds_payment (take 5 (map (λ (x : PaymentObservation). x.payment_id) refunded)))
    ++ currency_issue (currencies_of w)
    ++ issue_if (is_empty w.payment_items) warning no_payment_history_in_window
    ++ issue_if (ltb (now + five_minutes) as_of) warning as_of_in_future

abbrev pub is_critical : DataQualityIssue → Bool
is_critical i = elim i.severity [ critical ↦ true | warning ↦ false ]

abbrev pub status_for : (critical_count warning_count : ℕ) → QualityStatus
status_for c w = if not (c == 0) then blocked else if not (w == 0) then pass_with_warnings else pass

abbrev pub report_on : List DataQualityIssue → DataQualityReport
report_on issues = record {
  status =
      status_for (length (keep_if is_critical issues))
        (length (keep_if (λ i. not (is_critical i)) issues));
  critical_count = length (keep_if is_critical issues);
  warning_count = length (keep_if (λ i. not (is_critical i)) issues);
  issues = issues;
}

unfoldable pub quality_report : WindowItems → (unresolved as_of now : ℕ) → DataQualityReport
quality_report w unresolved as_of now = report_on (quality_issues w unresolved as_of now)

abbrev pub is_blocked : QualityStatus → Bool
is_blocked blocked = true
is_blocked _ = false

unfoldable pub feature_readiness : DataQualityReport → FeatureReadiness
feature_readiness quality =
    let gaps =
      "MERCHANT_BASELINE_NOT_BUILT" ∷ "DEVICE_FINGERPRINT_SOURCE_NOT_CONNECTED"
      ∷ "CUSTOMER_GEO_SOURCE_NOT_CONNECTED" ∷ "AUTH_STATUS_SOURCE_NOT_CONNECTED"
      ∷ "CHARGEBACK_MAPPING_NOT_FROZEN" ∷ "LOCKED_13_FEATURE_VECTOR_INCOMPLETE" ∷ [] in
    record {
      model_input_ready = false;
      available_source_dimensions =
          "merchant/account identity" ∷ "payment timestamp" ∷ "payment amount"
          ∷ "payment/refund state" ∷ "payment method" ∷ "dispute observations"
          ∷ "settlement observations" ∷ [];
      missing_source_dimensions =
          "merchant baseline for z-score features" ∷ "device_fingerprint" ∷ "customer_geo"
          ∷ "auth_status with APPROVED/FAILED semantics"
          ∷ "frozen dispute-to-chargeback feature mapping" ∷ [];
      blockers = if is_blocked quality.status then "DATA_QUALITY_FIREWALL_BLOCKED" ∷ gaps else gaps;
    }
