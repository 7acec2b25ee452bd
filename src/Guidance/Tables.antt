-- ===== src/Guidance/Tables.antt =====
-- The tables of src/razortrust/merchant_guidance.py.
use razor_trust.Common.{String, List, [], ◌∷◌}
use razor_trust.Domain.{
  other, fulfillment, geo_expansion, auth_incident, inventory, EvidenceRequirement, campaign,
  EvidenceType,
}

-- `_FEATURE_MESSAGES`
abbrev pub feature_messages : List (String × String)
feature_messages =
    ("volume_delta_z", "Your transaction volume is unusually high compared with your baseline.")
    ∷ ("gmv_delta_z", "Your gross transaction value increased sharply compared with your baseline.")
    ∷ ("ticket_size_delta_z", "Your average transaction amount is unusually different from normal.")
    ∷ ("new_device_ratio", "An unusually large share of transactions came from new devices.")
    ∷ ("new_geo_ratio", "An unusually large share of customers came from new locations.")
    ∷ ("refund_rate_delta_z", "Your refund rate is unusually high compared with your baseline.")
    ∷ (
      "chargeback_rate_delta_z",
      "Your chargeback rate is unusually high compared with your baseline.",
    )
    ∷ (
      "failed_auth_ratio",
      "The recent window contains an unusually high share of failed authorizations.",
    )
    ∷ (
      "volume_trend_slope",
      "Transaction volume accelerated unusually quickly during the review window.",
    )
    ∷ (
      "interarrival_time_cv",
      "Transaction timing is unusually concentrated compared with normal activity.",
    )
    ∷ ("device_entropy", "Recent transactions show an unusual device-usage pattern.")
    ∷ ("geo_entropy", "Recent transactions show an unusual geographic pattern.")
    ∷ (
      "amount_distribution_kl",
      "The mix of transaction amounts differs materially from your baseline.",
    )
    ∷ (
      "isolation_forest_percentile",
      "Recent activity is unlike the legitimate patterns seen during training.",
    )
    ∷ []

-- `_FEATURE_EVIDENCE`
abbrev pub feature_evidence : List (String × EvidenceType)
feature_evidence =
    ("volume_delta_z", campaign)
    ∷ ("gmv_delta_z", campaign)
    ∷ ("ticket_size_delta_z", inventory)
    ∷ ("new_device_ratio", auth_incident)
    ∷ ("new_geo_ratio", geo_expansion)
    ∷ ("refund_rate_delta_z", fulfillment)
    ∷ ("chargeback_rate_delta_z", fulfillment)
    ∷ ("failed_auth_ratio", auth_incident)
    ∷ ("volume_trend_slope", campaign)
    ∷ ("interarrival_time_cv", auth_incident)
    ∷ ("device_entropy", auth_incident)
    ∷ ("geo_entropy", geo_expansion)
    ∷ ("amount_distribution_kl", inventory)
    ∷ ("isolation_forest_percentile", other)
    ∷ []

-- `_REQUIREMENTS`
unfoldable pub requirement : EvidenceType → EvidenceRequirement
requirement campaign = record {
  evidence_type = campaign;
  title = "Campaign or sales-event proof";
  description = "Upload the campaign brief, dated promotion schedule, and matching invoices.";
}
requirement fulfillment = record {
  evidence_type = fulfillment;
  title = "Fulfilment and refund records";
  description = "Upload dispatch proof, refund logs, and the relevant customer-resolution records.";
}
requirement geo_expansion = record {
  evidence_type = geo_expansion;
  title = "Geographic expansion proof";
  description = "Upload launch documentation and invoices or orders for the new service region.";
}
requirement auth_incident = record {
  evidence_type = auth_incident;
  title = "Authentication or device incident report";
  description = "Upload the incident timeline, affected device ranges, and remediation evidence.";
}
requirement inventory = record {
  evidence_type = inventory;
  title = "Invoice and inventory proof";
  description = "Upload supplier invoices, inventory records, and matching customer orders.";
}
requirement other = record {
  evidence_type = other;
  title = "Transaction-context evidence";
  description = "Upload dated records that explain the unusual transaction pattern.";
}
