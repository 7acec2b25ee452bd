-- ===== src/Repository/State.antt =====
-- The dictionaries of `InMemoryHoldRepository` (src/razortrust/repository.py).
use razor_trust.Common.{ℕ, List, []}
use razor_trust.Common.Dict.{Dict}
use razor_trust.Domain.{
  HoldCase, HoldEvaluationInput, FeatureVector, EvidenceRecord, AnalystReviewRecord,
  DecisionResponse,
}

-- The objects in the dictionaries are replaced and never shared: what a method returns is a copy.
pub record Repository (F : Type 0) : Type 0 where
  pub cases : Dict HoldCase
  pub request_index : Dict ℕ
  pub decisions : Dict (DecisionResponse F)
  pub evaluation_inputs : Dict (HoldEvaluationInput F)
  pub features : Dict (FeatureVector F)
  pub evidence : Dict (EvidenceRecord F)
  pub evidence_request_index : Dict ℕ
  pub reviews : Dict (List (AnalystReviewRecord F))
  pub reviews_by_request : Dict (AnalystReviewRecord F)
  pub review_request_index : Dict ℕ

abbrev pub empty : {F : Type 0} → Repository F
empty = record {
  cases = [];
  request_index = [];
  decisions = [];
  evaluation_inputs = [];
  features = [];
  evidence = [];
  evidence_request_index = [];
  reviews = [];
  reviews_by_request = [];
  review_request_index = [];
}
