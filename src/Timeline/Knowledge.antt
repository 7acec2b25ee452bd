-- ===== src/Timeline/Knowledge.antt =====
-- A snapshot has only what was known at its time.
use razor_trust.Timeline.Observations.{PointInTimeMerchantSnapshot}
use razor_trust.Timeline.Snapshot.{build_point_in_time_snapshot, latest_items, Observations}
use razor_trust.Timeline.Latest.{latest_as_of-known, latest_as_of, known_as_of}
use razor_trust.Common.{ℕ, String, ◌≡◌, refl, sym, ap, ◌∙◌, List}

-- Two sets of observations of which the same ones were made up to a time.
pub record SameKnowledge (as_of : ℕ) (o o' : Observations) : Type 0 where
  pub same_payments :
      known_as_of (λ x. x.payment_id) (λ x. x.observed_at) as_of o.payment_observations
      ≡ known_as_of (λ x. x.payment_id) (λ x. x.observed_at) as_of o'.payment_observations
  pub same_refunds :
      known_as_of (λ x. x.refund_id) (λ x. x.observed_at) as_of o.refund_observations
      ≡ known_as_of (λ x. x.refund_id) (λ x. x.observed_at) as_of o'.refund_observations
  pub same_disputes :
      known_as_of (λ x. x.dispute_id) (λ x. x.observed_at) as_of o.dispute_observations
      ≡ known_as_of (λ x. x.dispute_id) (λ x. x.observed_at) as_of o'.dispute_observations
  pub same_settlements :
      known_as_of (λ x. x.settlement_id) (λ x. x.observed_at) as_of o.settlement_observations
      ≡ known_as_of (λ x. x.settlement_id) (λ x. x.observed_at) as_of o'.settlement_observations

latest_as_of-same :
    {A : Type 0} (id : A → String) (at : A → ℕ) (as_of : ℕ) (xs ys : List A)
    → known_as_of id at as_of xs ≡ known_as_of id at as_of ys
    → latest_as_of id at as_of xs ≡ latest_as_of id at as_of ys
latest_as_of-same id at as_of xs ys h =
    sym (latest_as_of-known id at as_of xs)
    ∙ ap (latest_as_of id at as_of) h
    ∙ latest_as_of-known id at as_of ys

latest_items-same :
    (as_of : ℕ) (o o' : Observations)
    → SameKnowledge as_of o o'
    → latest_items as_of o ≡ latest_items as_of o'
unfolding latest_items
latest_items-same as_of o o' h = rw (latest_as_of-same _ _ as_of _ _ h.same_payments) (
    rw (latest_as_of-same _ _ as_of _ _ h.same_refunds) (
      rw (latest_as_of-same _ _ as_of _ _ h.same_disputes)
        (rw (latest_as_of-same _ _ as_of _ _ h.same_settlements) refl)))

-- Two sets of observations of which the same ones were made up to the time of the snapshot give
-- the same snapshot, its digest included, or the same exception: a later observation of a
-- payment, refund, dispute or settlement never matters.
pub snapshot_knowledge :
    (digest : PointInTimeMerchantSnapshot → String) (account_id : String)
    (as_of lookback_hours unresolved now : ℕ) (o o' : Observations)
    → SameKnowledge as_of o o'
    → build_point_in_time_snapshot digest account_id as_of lookback_hours o unresolved now
      ≡ build_point_in_time_snapshot digest account_id as_of lookback_hours o' unresolved now
unfolding build_point_in_time_snapshot
snapshot_knowledge digest account_id as_of lookback_hours unresolved now o o' h =
    rw (latest_items-same as_of o o' h) refl
