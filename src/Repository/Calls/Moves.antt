-- ===== src/Repository/Calls/Moves.antt =====
-- What one call does to one hold: nothing, or the step of the hold's lifecycle that the call is for.
use razor_trust.Repository.Submissions.{submitted_case}
use razor_trust.Repository.SubmitOutcome.{submit_outcome, SubmitOutcome}
use razor_trust.Repository.Invariant.Rehash.{rehash_outcome, RehashOutcome}
use razor_trust.Repository.ReviewOutcome.{review_outcome, ReviewOutcome}
use razor_trust.Repository.Cases.{new_case, decided_case}
use razor_trust.Common.Dict.{insert, lookup-insert}
use razor_trust.Repository.Outcomes.{
  save_decision_outcome, create_outcome, CreateOutcome, SaveOutcome,
}
use razor_trust.Repository.Reviews.{reviewed_case, is_reviewable}
use razor_trust.Domain.{
  EvidenceRecord, AnalystReviewRecord, FeatureVector, EvidenceSubmission, HoldEvaluationInput,
  resolved_decision, evidence_submitted, HoldDecision, evidence_needed, awaiting_evidence,
  decision_eq,
}
use razor_trust.Common.{
  Option-cases, ==_iff, List, String, Bool-cases, none, ℕ, ◌≡◌, refl, ◌⊎◌, inl, inr, Bool, true,
  false, ◌&&◌, some, ◌==◌, arith,
}
use razor_trust.Repository.Cases
use razor_trust.Common.Exec.{Result, ok, err}
use razor_trust.Repository.Calls.{
  Platform, ok, Result, HoldCreate, lookup, DecisionResponse, Repository, AnalystReviewSubmission,
  HoldCase, Call, raised, perform, IsFresh,
}

-- A decision that asks for evidence never meets a hold that has had its evidence round.
abbrev Decides : {F : Type 0} → DecisionResponse F → ℕ → HoldCase → HoldCase → Type 0
Decides d now old new =
    ((decision_eq d.decision evidence_needed && old.evidence_round == 1) ≡ false)
    × (new ≡ decided_case d now old)

abbrev Submits : (now : ℕ) → HoldCase → HoldCase → Type 0
Submits now old new =
    (old.state ≡ awaiting_evidence)
    × (old.evidence_round ≡ 0)
    × (new ≡ record old { evidence_round = 1; state = evidence_submitted; updated_at = now })

abbrev Reviews' : {F : Type 0} → AnalystReviewSubmission F → ℕ → HoldCase → HoldCase → Type 0
Reviews' x now old new =
    (is_reviewable old.state ≡ true)
    × ((d : HoldDecision) × (resolved_decision x ≡ ok d)
        × ((decision_eq d evidence_needed && old.evidence_round == 1) ≡ false)
        × (new ≡ reviewed_case d x now old))

-- The step of the hold `k` that the call makes, where it makes one.
abbrev pub Step : {F : Type 0} → Call F → ℕ → HoldCase → HoldCase → Type 0
Step (Call.save_decision d now) k old new = (d.hold_id ≡ k) × Decides d now old new
Step (Call.submit_evidence j x fresh now now') k old new = (j ≡ k) × Submits now' old new
Step (Call.record_analyst_review j x analyst fresh now now') k old new =
    (j ≡ k) × Reviews' x now' old new
Step _ k old new = ⊥

-- The hold `k` of the second repository, as the first and the call leave it.
abbrev pub Moves : {F : Type 0} → Call F → ℕ → HoldCase → Repository F → Type 0
Moves c k old s' =
    (new : HoldCase) × (lookup k s'.cases ≡ some new) × ((new ≡ old) ⊎ Step c k old new)

module _ {F : Type 0} (s : Repository F) (k : ℕ) (old : HoldCase)
    (e : lookup k s.cases ≡ some old) where
  stays : (c : Call F) (s' : Repository F) → s' ≡ s → Moves c k old s'
  stays c s' same = (old, rw same e, inl refl)

  create-Moves :
      (r : HoldCreate) (fresh now now' : ℕ) (res : Result (HoldCase × Bool) × Repository F)
      → lookup fresh s.cases ≡ none
      → CreateOutcome r fresh now now' s res
      → Moves (Call.create r fresh now now') k old res.1
  create-Moves r fresh now now' res unused (CreateOutcome.refused x q) =
      stays (Call.create r fresh now now') res.1 (rw q refl)
  create-Moves r fresh now now' res unused (CreateOutcome.existing id h i l q) =
      stays (Call.create r fresh now now') res.1 (rw q refl)
  create-Moves r fresh now now' res unused (CreateOutcome.fresh_case i q) =
      rw q
        (old, ground (arith, lookup-insert fresh k (new_case r fresh now now') s.cases), inl refl)

  same_case :
      (j : ℕ) (before : HoldCase)
      → (j == k) ≡ true
      → lookup j s.cases ≡ some before
      → (j ≡ k) × (before ≡ old)
  same_case j before same l = let jk = (==_iff j k).0 same in (jk, cc)

  -- The case under `j` is replaced: by a step, if that is the hold `k`.
  put-Moves :
      (c : Call F) (s' : Repository F) (j : ℕ) (before after : HoldCase)
      → lookup j s.cases ≡ some before
      → s'.cases ≡ insert j after s.cases
      → (j ≡ k → before ≡ old → Step c k old after)
      → Moves c k old s'
  put-Moves c s' j before after l q step =
      let put = lookup-insert j k after s.cases in
      elim (Bool-cases (j == k)) [
        | inl same ↦
            let both = same_case j before same l in
            (after, rw q (ground (arith, put)), inr (step both.0 both.1))
        | inr other ↦ (old, rw q (ground (arith, put)), inl refl)
      ]

  save_decision-Moves :
      (d : DecisionResponse F) (now : ℕ) (res : Result HoldCase × Repository F)
      → SaveOutcome d now s res
      → Moves (Call.save_decision d now) k old res.1
  save_decision-Moves d now res (SaveOutcome.refused x q) =
      stays (Call.save_decision d now) res.1 (rw q refl)
  save_decision-Moves d now res (SaveOutcome.saved before l fine q) =
      put-Moves (Call.save_decision d now) res.1 d.hold_id before (decided_case d now before) l
        (rw q refl) (λ jk same. (jk, (rw (← same) fine, rw same refl)))

  record_analyst_review-Moves :
      (j : ℕ) (x : AnalystReviewSubmission F) (analyst : String) (fresh now now' : ℕ)
      (res : Result (AnalystReviewRecord F × Bool) × Repository F)
      → ReviewOutcome j x analyst fresh now now' s res
      → Moves (Call.record_analyst_review j x analyst fresh now now') k old res.1
  record_analyst_review-Moves j x analyst fresh now now' res (ReviewOutcome.refused y q) =
      stays (Call.record_analyst_review j x analyst fresh now now') res.1 (rw q refl)
  record_analyst_review-Moves j x analyst fresh now now' res (ReviewOutcome.repeated r i l q) =
      stays (Call.record_analyst_review j x analyst fresh now now') res.1 (rw q refl)
  record_analyst_review-Moves j x analyst fresh now now' res
        (ReviewOutcome.recorded before d ai label new l ready ed lai fine lab q) =
      put-Moves (Call.record_analyst_review j x analyst fresh now now') res.1 j before
        (reviewed_case d x now' before) l (rw q refl)
        (λ jk same. (jk, (rw (← same) ready, (d, ed, rw (← same) (ground arith), rw same refl))))

  snapshot-Moves :
      (j : ℕ) (i : HoldEvaluationInput F) (f : FeatureVector F)
      → Moves (Call.save_feature_snapshot j i f) k old (Cases.save_feature_snapshot j i f s).1
  unfolding Cases.save_feature_snapshot
  snapshot-Moves j i f = elim (Option-cases (lookup j s.cases)) [
    | inl lost ↦ rw lost (old, e, inl refl)
    | inr (h, l) ↦ rw l (old, e, inl refl)
  ]

  rehash-Moves :
      (j : ℕ) (hash : List ℕ) (res : Result (AnalystReviewRecord F) × Repository F)
      → RehashOutcome j hash s res
      → Moves (Call.update_analyst_review_audit_hash j hash) k old res.1
  rehash-Moves j hash res (RehashOutcome.refused x q) =
      stays (Call.update_analyst_review_audit_hash j hash) res.1 (rw q refl)
  rehash-Moves j hash res (RehashOutcome.updated rs r la lb q) = rw q (old, e, inl refl)

module _ (p : Platform) where
  open p use {Float}

  submit_evidence-Moves :
      (s : Repository Float) (k : ℕ) (old : HoldCase) (e : lookup k s.cases ≡ some old) (j : ℕ)
      (x : EvidenceSubmission) (fresh now now' : ℕ)
      (res : Result (EvidenceRecord Float × Bool) × Repository Float)
      → SubmitOutcome p j x fresh now now' s res
      → Moves (Call.submit_evidence j x fresh now now') k old res.1
  submit_evidence-Moves s k old e j x fresh now now' res (SubmitOutcome.refused y q) =
      stays s k old e (Call.submit_evidence j x fresh now now') res.1 (rw q refl)
  submit_evidence-Moves s k old e j x fresh now now' res (SubmitOutcome.other_hold id l ne q) =
      stays s k old e (Call.submit_evidence j x fresh now now') res.1 (rw q refl)
  submit_evidence-Moves s k old e j x fresh now now' res (SubmitOutcome.repeated r i l q) =
      stays s k old e (Call.submit_evidence j x fresh now now') res.1 (rw q refl)
  submit_evidence-Moves s k old e j x fresh now now' res
        (SubmitOutcome.accepted before new l fine q) =
      put-Moves s k old e (Call.submit_evidence j x fresh now now') res.1 j before
        (submitted_case p now' before) l (rw q refl)
        (λ jk same. (jk, (ground arith, ground arith, rw same refl)))

  moved :
      {A : Type 0} (c : Call Float) (k : ℕ) (old : HoldCase) (res : Result A × Repository Float)
      → Moves c k old res.1
      → Moves c k old (raised res).1
  moved c k old (ok a, s') h = h
  moved c k old (err x, s') h = h

  -- A hold never disappears, and one call either leaves it as it is or makes the one step of its
  -- lifecycle that the call is for: a decision, the one evidence round, or a human review; if a new hold
  -- gets an identifier that no hold has.
  pub perform-Moves :
      (c : Call Float) (s : Repository Float) (k : ℕ) (old : HoldCase)
      → IsFresh p c s
      → lookup k s.cases ≡ some old
      → Moves c k old (perform p c s).1
  unfolding perform
  perform-Moves (Call.create r fresh now now') s k old f e =
      moved (Call.create r fresh now now') k old _
        (create-Moves s k old e r fresh now now' _ f (create_outcome r fresh now now' s))
  perform-Moves (Call.save_feature_snapshot j i x) s k old f e =
      moved (Call.save_feature_snapshot j i x) k old _ (snapshot-Moves s k old e j i x)
  perform-Moves (Call.save_decision d now) s k old f e =
      moved (Call.save_decision d now) k old _
        (save_decision-Moves s k old e d now _ (save_decision_outcome d now s))
  perform-Moves (Call.submit_evidence j x fresh now now') s k old f e =
      moved (Call.submit_evidence j x fresh now now') k old _ (
        submit_evidence-Moves s k old e j x fresh now now' _
          (submit_outcome p j x fresh now now' s))
  perform-Moves (Call.record_analyst_review j x analyst fresh now now') s k old f e =
      moved (Call.record_analyst_review j x analyst fresh now now') k old _ (
        record_analyst_review-Moves s k old e j x analyst fresh now now' _
          (review_outcome j x analyst fresh now now' s))
  perform-Moves (Call.update_analyst_review_audit_hash j hash) s k old f e =
      moved (Call.update_analyst_review_audit_hash j hash) k old _
        (rehash-Moves s k old e j hash _ (rehash_outcome j hash s))
