-- ===== src/Models.antt =====
-- The risk models of src/razortrust/risk.py.
use razor_trust.Features.{is_ratio}
use razor_trust.Common.{
  String, Bool, false, not, ◌&&◌, none, List, [], ◌∷◌, map, if◌then◌else◌, take,
}
use razor_trust.Common.Exec.{Result, ok, err, runtime_error, value_error}
use razor_trust.Common.Platform.{Platform}
use razor_trust.Domain.{
  ModelPrediction, FeatureVector, FeatureContribution, ProbabilityVector, HoldDecision,
}
use razor_trust.Common.{String, Bool, false, if◌then◌else◌, none, List, [], ◌∷◌, map, take}

module _ (p : Platform) where
  open p use {Float, lt, add, sub, mul, div, sum, lit, round6}

  -- `min(a, b)` and `max(a, b)`, which return the first of equals
  abbrev pub min_of : Float → Float → Float
  min_of a b = if lt b a then b else a

  abbrev pub max_of : Float → Float → Float
  max_of a b = if lt a b then b else a

  -- `_clamp`
  abbrev pub clamp : Float → Float
  clamp value = max_of (lit 0 0) (min_of (lit 1 0) value)

  -- The names, with the observed value and the contribution of each.
  abbrev pub contributions : FeatureVector Float → List (String × (Float × Float))
  contributions f =
      ("volume_delta_z", (f.volume_delta_z, mul (lit 6 2) (clamp (div f.volume_delta_z (lit 5 0)))))
      ∷ ("gmv_delta_z", (f.gmv_delta_z, mul (lit 8 2) (clamp (div f.gmv_delta_z (lit 5 0)))))
      ∷ (
        "ticket_size_delta_z",
        (f.ticket_size_delta_z, mul (lit 6 2) (clamp (div f.ticket_size_delta_z (lit 5 0)))),
      )
      ∷ ("new_device_ratio", (f.new_device_ratio, mul (lit 12 2) f.new_device_ratio))
      ∷ ("new_geo_ratio", (f.new_geo_ratio, mul (lit 8 2) f.new_geo_ratio))
      ∷ (
        "refund_rate_delta_z",
        (f.refund_rate_delta_z, mul (lit 10 2) (clamp (div f.refund_rate_delta_z (lit 5 0)))),
      )
      ∷ (
        "chargeback_rate_delta_z",
        (
          f.chargeback_rate_delta_z,
          mul (lit 14 2) (clamp (div f.chargeback_rate_delta_z (lit 5 0))),
        ),
      )
      ∷ (
        "failed_auth_ratio",
        (f.failed_auth_ratio, mul (lit 14 2) (clamp (div f.failed_auth_ratio (lit 5 1)))),
      )
      ∷ (
        "volume_trend_slope",
        (f.volume_trend_slope, mul (lit 5 2) (clamp (div f.volume_trend_slope (lit 3 0)))),
      )
      ∷ (
        "interarrival_time_cv",
        (
          f.interarrival_time_cv,
          mul (lit 4 2) (clamp (div (sub (lit 8 1) f.interarrival_time_cv) (lit 8 1))),
        ),
      )
      ∷ (
        "device_entropy",
        (f.device_entropy, mul (lit 3 2) (clamp (div f.device_entropy (lit 4 0)))),
      )
      ∷ ("geo_entropy", (f.geo_entropy, mul (lit 2 2) (clamp (div f.geo_entropy (lit 3 0)))))
      ∷ (
        "amount_distribution_kl",
        (f.amount_distribution_kl, mul (lit 8 2) (clamp (div f.amount_distribution_kl (lit 2 0)))),
      )
      ∷ []

  -- `sorted(…, key=value, reverse=True)`, which keeps the order of equal keys
  pub insert_by_value :
      String × (Float × Float) → List (String × (Float × Float)) → List (String × (Float × Float))
  insert_by_value x [] = x ∷ []
  insert_by_value x (y ∷ ys) =
      let rest = insert_by_value x ys in if lt x.1.1 y.1.1 then y ∷ rest else x ∷ y ∷ ys

  pub largest_first : List (String × (Float × Float)) → List (String × (Float × Float))
  largest_first [] = []
  largest_first (x ∷ xs) = insert_by_value x (largest_first xs)

  abbrev contribution_of : String × (Float × Float) → FeatureContribution Float
  contribution_of (name, (observed, value)) = record {
    feature = name;
    observed_value = observed;
    contribution_value = round6 value;
    direction = HoldDecision.escalate;
    reference = "documented development rule weight";
    attribution_method = "development_rules";
    model_output_explained = none;
    template_id = none;
  }

  -- `abs(x)`
  abbrev magnitude : Float → Float
  magnitude x = if lt x (lit 0 0) then sub (lit 0 0) x else x

  -- The constraints of `ProbabilityVector`
  pub is_distribution : ProbabilityVector Float → Bool
  is_distribution v =
      is_ratio p v.release
      && is_ratio p v.evidence_needed
      && is_ratio p v.escalate
      && not (
          lt (lit 1 6)
            (magnitude (sub (add (add v.release v.evidence_needed) v.escalate) (lit 1 0))))

  -- A prediction with no anomaly statistics.
  abbrev pub prediction_of :
      ProbabilityVector Float
      → String
      → (anomaly_score : Float) → List (FeatureContribution Float)
      → String
      → ModelPrediction Float
  prediction_of v method anomaly_score top model_version = record {
    probabilities = v;
    calibrated = false;
    calibration_method = method;
    anomaly_score = anomaly_score;
    anomaly_raw_score = none;
    anomaly_reference_max = none;
    anomaly_tail_excess = none;
    anomaly_reference_size = none;
    anomaly_model_version = none;
    anomaly_reference_mode = none;
    novelty_override = false;
    top_features = top;
    model_version = model_version;
  }

  abbrev pub development_probabilities : Float → ProbabilityVector Float
  development_probabilities risk =
      let escalate = clamp (add (lit 5 2) (mul (lit 80 2) risk)) in
      let release = clamp (sub (lit 90 2) (mul (lit 95 2) risk)) in
      let needed = max_of (lit 0 0) (sub (sub (lit 1 0) release) escalate) in
      let total = add (add release needed) escalate in
      record {
        release = div release total;
        evidence_needed = div needed total;
        escalate = div escalate total;
      }

  abbrev development_prediction : FeatureVector Float → Float → ModelPrediction Float
  development_prediction f risk =
      prediction_of (development_probabilities risk) "none" (round6 (clamp (mul risk (lit 11 1))))
        (map contribution_of (take 3 (largest_first (contributions f)))) "development-rules@1"

  -- `DevelopmentRiskModel.predict`; a vector that is no distribution is a `ValueError`.
  unfoldable pub development_predict : FeatureVector Float → String → Result (ModelPrediction Float)
  unfolding is_distribution largest_first insert_by_value
  development_predict f cohort =
      let risk = clamp (sum (map (λ (name, (observed, value)). value) (contributions f))) in
      if is_distribution (development_probabilities risk)
      then ok (development_prediction f risk)
      else err value_error

  -- `HumanOnlyRiskModel.predict`
  unfoldable pub human_only_predict : FeatureVector Float → String → Result (ModelPrediction Float)
  human_only_predict f cohort = ok (
      prediction_of (record { release = lit 0 0; evidence_needed = lit 0 0; escalate = lit 1 0 })
        "human_only" (lit 1 0) [] "human-only@1")

  -- `UnavailableRiskModel.predict`
  unfoldable pub unavailable_predict : FeatureVector Float → String → Result (ModelPrediction Float)
  unavailable_predict f cohort = err runtime_error
