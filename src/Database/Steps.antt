-- ===== src/Database/Steps.antt =====
-- What the methods of `SqlHoldRepository` do to the audit trail.
use razor_trust.Repository.Cases.{new_case}
use razor_trust.Database.Reviews.{record_analyst_review, review_row}
use razor_trust.Database.Holds.{reread, conflicts, commit_hold, create, save_feature_snapshot}
use razor_trust.Database.Decisions.{
  outbox_row, hash_row, previous_of, next_sequence, with_event, save_decision_and_audit,
  save_decision,
}
use razor_trust.Database.Chain.{added, AuditStep, kept}
use razor_trust.Database.Queries.{find_request, latest_event, find_hold, get_hold_row}
use razor_trust.Database.Tables.{AuditEventRow, Database, SqlHashing}
use razor_trust.Common.{
  inr, inl, Bool-cases, Option-cases, [], ◌∷◌, ◌++◌, ap, ℕ, String, ◌≡◌, refl, Bool, true, false,
  Option, none, some,
}
use razor_trust.Common.Exec.{
  pure, gets, modify, Exception, Result, ok, err, Exec, lift, or_raise, raise_if, ◌>>=◌, ◌>>◌,
  hold_not_found,
}
use razor_trust.Domain.{
  HoldCreate, AnalystReviewRecord, AnalystReviewSubmission, FeatureVector, HoldEvaluationInput,
  HoldCase, DecisionResponse,
}

module _ {F X : Type 0} (h : SqlHashing F X) (s : Database F X) where
  -- An action that may raise before it makes its step.
  unfoldable pub Steps : {A : Type 0} → Exec (Database F X) A → Type 0
  Steps m = AuditStep h s (m s).1

  module _ {B : Type 0} where
    pub Steps-lift :
        {A : Type 0} (r : Result A) (k : A → Exec (Database F X) B)
        → ((a : A) → r ≡ ok a → Steps (k a))
        → Steps (lift r >>= k)
    unfolding Steps
    Steps-lift (ok a) k f = f a refl
    Steps-lift (err x) k f = kept refl refl

    pub Steps-or_raise :
        {A : Type 0} (o : Option A) (x : Exception) (k : A → Exec (Database F X) B)
        → ((a : A) → Steps (k a))
        → Steps (or_raise o x >>= k)
    unfolding Steps
    Steps-or_raise none x k f = kept refl refl
    Steps-or_raise (some a) x k f = f a

    pub Steps-raise_if :
        (b : Bool) (x : Exception) (k : Exec (Database F X) B) → Steps k → Steps (raise_if b x >> k)
    unfolding Steps
    Steps-raise_if true x k f = kept refl refl
    Steps-raise_if false x k f = f

    pub Steps-get_hold_row :
        (id : ℕ) (k : HoldCase → Exec (Database F X) B)
        → ((a : HoldCase) → Steps (k a))
        → Steps (get_hold_row id >>= k)
    unfolding Steps get_hold_row
    Steps-get_hold_row id k f = Steps-or_raise (find_hold id s.holds) hold_not_found k f

    pub Steps-gets :
        {A : Type 0} (f : Database F X → A) (k : A → Exec (Database F X) B)
        → Steps (k (f s))
        → Steps (gets f >>= k)
    unfolding Steps
    Steps-gets f k g = g

    -- The last actions write nothing to the trail, or one row that is the next.
    pub Steps-kept :
        (f : Database F X → Database F X) (b : B)
        → (f s).audit_events ≡ s.audit_events
        → (f s).outbox_events ≡ s.outbox_events
        → Steps (modify f >> pure b)
    unfolding Steps
    Steps-kept f b a o = kept a o

    pub Steps-added :
        (f : Database F X → Database F X) (topic : String) (r : AuditEventRow F X) (b : B)
        → (f s).audit_events ≡ s.audit_events
        → (f s).outbox_events ≡ s.outbox_events
        → r.event.sequence_no ≡ next_sequence (latest_event r.event.case_id s)
        → r.previous_hash ≡ previous_of (latest_event r.event.case_id s)
        → hash_row h r.event r.previous_hash ≡ ok r.record_hash
        → Steps (modify f >> (modify (with_event topic r) >> pure b))
    unfolding Steps
    Steps-added f topic r b a o n p q =
        added r (outbox_row topic r) (n, p, q) refl (ap (λ l. l ++ r ∷ []) a)
          (ap (λ l. l ++ outbox_row topic r ∷ []) o)

    pub Steps-pure : (b : B) → Steps (pure b)
    unfolding Steps
    Steps-pure b = kept refl refl

  pub ruleset guards = (Steps-lift, Steps-or_raise, Steps-raise_if, Steps-get_hold_row, Steps-gets)

  pub save_decision-Steps : (d : DecisionResponse F) (now : ℕ) → Steps (save_decision d now)
  unfolding save_decision
  save_decision-Steps d now = search (guards, Steps-kept) depth 8

  pub save_feature_snapshot-Steps :
      (id : ℕ) (i : HoldEvaluationInput F) (f : FeatureVector F) (now : ℕ)
      → Steps (save_feature_snapshot id i f now)
  unfolding save_feature_snapshot
  save_feature_snapshot-Steps id i f now = search (guards, Steps-kept) depth 8

  pub save_decision_and_audit-Steps :
      (d : DecisionResponse F) (x : X) (trace : String) (event_id now : ℕ)
      → Steps (save_decision_and_audit h d x trace event_id now)
  unfolding save_decision_and_audit
  save_decision_and_audit-Steps d x trace event_id now = search (guards, Steps-added) depth 12

  pub review_row-Steps :
      (id : ℕ) (x : AnalystReviewSubmission F) (analyst : String) (review_id event_id now : ℕ)
      (o : Option (AnalystReviewRecord F))
      → Steps (review_row h id x analyst review_id event_id now o)
  review_row-Steps id x analyst review_id event_id now (some existing) = search (guards, Steps-pure)
  review_row-Steps id x analyst review_id event_id now none = search (guards, Steps-added) depth 20

  pub record_analyst_review-Steps :
      (id : ℕ) (x : AnalystReviewSubmission F) (analyst : String) (review_id event_id now : ℕ)
      → Steps (record_analyst_review h id x analyst review_id event_id now)
  unfolding record_analyst_review
  record_analyst_review-Steps id x analyst review_id event_id now =
      search (guards, review_row-Steps)

  reread-Steps : (r : HoldCreate) → Steps (reread r)
  reread-Steps r = search (guards, Steps-pure)

  pub commit_hold-Steps : (r : HoldCreate) (row : HoldCase) → Steps (commit_hold r row)
  unfolding Steps
  commit_hold-Steps r row = elim (Bool-cases (conflicts row s)) [
    | inl b ↦ rw b (reread-Steps r)
    | inr b ↦ rw b (kept refl refl)
  ]

  pub create-Steps : (r : HoldCreate) (fresh now : ℕ) → Steps (create r fresh now (λ t. t))
  unfolding create Steps
  create-Steps r fresh now = elim (Option-cases (find_request r.request_id s.holds)) [
    | inl e ↦ rw e (commit_hold-Steps r (new_case r fresh now now))
    | inr (x, e) ↦ rw e (kept refl refl)
  ]
