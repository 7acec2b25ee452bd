-- ===== src/Repository/Outcomes.antt =====
-- How each method of the repository can end: it raises and leaves the dictionaries as they were, or
-- it makes one update, under the conditions that it has checked. The proofs about the repository
-- split on these outcomes and never look into the methods again.
use razor_trust.Common.{
  ℕ, ◌≡◌, Bool, true, false, ◌&&◌, none, some, ◌==◌, Option-cases, Bool-cases, inl, inr,
}
use razor_trust.Common.Dict.{lookup}
use razor_trust.Common.Exec.{
  Exception, Result, ok, err, hold_not_found, invalid_transition, key_error,
}
use razor_trust.Domain.{evidence_needed, decision_eq, HoldCreate, HoldCase, DecisionResponse}
use razor_trust.Repository.State.{Repository}
use razor_trust.Repository.Cases.{new_case, decided_case, created, decided, create, save_decision}

module _ {F : Type 0} where
  pub data CreateOutcome (r : HoldCreate) (fresh now now' : ℕ) (s : Repository F)
      (res : Result (HoldCase × Bool) × Repository F) : Type 0 where
    refused : (x : Exception) → res ≡ (err x, s) → CreateOutcome r fresh now now' s res
    existing :
        (id : ℕ) (h : HoldCase)
        → lookup r.request_id s.request_index ≡ some id
        → lookup id s.cases ≡ some h
        → res ≡ (ok (h, false), s)
        → CreateOutcome r fresh now now' s res
    fresh_case :
        lookup r.request_id s.request_index ≡ none
        → res ≡ (ok (new_case r fresh now now', true), created (new_case r fresh now now') s)
        → CreateOutcome r fresh now now' s res

  pub create_outcome :
      (r : HoldCreate) (fresh now now' : ℕ) (s : Repository F)
      → CreateOutcome r fresh now now' s (create r fresh now now' s)
  unfolding create
  create_outcome r fresh now now' s = elim (Option-cases (lookup r.request_id s.request_index)) [
    | inl e ↦ fresh_case e (rw e)
    | inr (id, e) ↦ elim (Option-cases (lookup id s.cases)) [
      | inl lost ↦ refused key_error (rw e (rw lost))
      | inr (h, found) ↦ existing id h e found (rw e (rw found))
    ]
  ]

  pub data SaveOutcome (d : DecisionResponse F) (now : ℕ) (s : Repository F)
      (res : Result HoldCase × Repository F) : Type 0 where
    refused : (x : Exception) → res ≡ (err x, s) → SaveOutcome d now s res
    saved :
        (old : HoldCase)
        → lookup d.hold_id s.cases ≡ some old
        → (decision_eq d.decision evidence_needed && old.evidence_round == 1) ≡ false
        → res ≡ (ok (decided_case d now old), decided d (decided_case d now old) s)
        → SaveOutcome d now s res

  pub save_decision_outcome :
      (d : DecisionResponse F) (now : ℕ) (s : Repository F)
      → SaveOutcome d now s (save_decision d now s)
  unfolding save_decision
  save_decision_outcome d now s = elim (Option-cases (lookup d.hold_id s.cases)) [
    | inl e ↦ refused hold_not_found (rw e)
    | inr (old, e) ↦
        elim (Bool-cases (decision_eq d.decision evidence_needed && old.evidence_round == 1)) [
          | inl bad ↦ refused invalid_transition (rw e (rw bad))
          | inr fine ↦ saved old e fine (rw e (rw fine))
        ]
  ]
