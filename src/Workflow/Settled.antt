-- ===== src/Workflow/Settled.antt =====
-- A score that fails still decides, against release.
use razor_trust.Audit.{append, Line, Entry, record_of, entry, verify, records, AuditRecord}
use razor_trust.Audit.Append.{append-verify, IsDigest}
use razor_trust.Repository.State.{Repository}
use razor_trust.Repository.Cases.{decided, decided_case, save_decision}
use razor_trust.Workflow.Score.{
  conclude, response, decision_entry, failed, drafting, draft, score, policy_request, store,
}
use razor_trust.Workflow.Failures.{ask, fail_safe}
use razor_trust.Policy.{check}
use razor_trust.Common.{none, Option, ◌⊎◌, inl, inr, Bool}
use razor_trust.Workflow.State.{Stamps, on_repository, on_ledger, Payload, World, Parts}
use razor_trust.Common.{
  ℕ, suc, ◌≡◌, refl, ap, ◌∙◌, true, false, some, List, [], ◌∷◌, ◌++◌, arith, length,
}
use razor_trust.Common.Exec.{
  caught_by_score, Exception, policy_unavailable, err, Result, ok, pure, ◌>>=◌,
}
use razor_trust.Common.Dict.{lookup, lookup-insert}
use razor_trust.Common.Platform.{Platform}
use razor_trust.Domain.{
  HoldDecision, EvidenceRecord, PolicyResult, HoldEvaluationInput, PolicyCheck, DecisionResponse,
  decision_eq, HoldCase, evidence_needed, human_review,
}

module _ (p : Platform) (parts : Parts p)
    (digests : (m : List ℕ) → IsDigest (parts.hashing.sha256_hex m)) where
  open p use {Float}

  -- `store` after the call of `append`.
  abbrev store_after :
      DecisionResponse Float
      → (at : ℕ) → World Float
      → Result (List ℕ) × List (Line (Payload Float))
      → Result (DecisionResponse Float) × World Float
  store_after r at w res =
      (on_ledger {A = List ℕ} (λ ls. res) >>= λ head.
      on_repository (save_decision (record r { audit_head_hash = head }) at) >>= λ saved.
      pure (record r { audit_head_hash = head }))
        w

  save_ok :
      (r : DecisionResponse Float) (at : ℕ) (s : Repository Float) (old : HoldCase)
      → lookup r.hold_id s.cases ≡ some old
      → decision_eq r.decision evidence_needed ≡ false
      → save_decision r at s ≡ (ok (decided_case r at old), decided r (decided_case r at old) s)
  unfolding save_decision
  save_ok r at s old l dec = rw l (rw dec refl)

  store_after_logged :
      (r : DecisionResponse Float) (at : ℕ) (w : World Float) (old : HoldCase) (head : List ℕ)
      (ledger : List (Line (Payload Float)))
      → lookup r.hold_id w.repository.cases ≡ some old
      → decision_eq r.decision evidence_needed ≡ false
      → store_after r at w (ok head, ledger) ≡ (
          let final : DecisionResponse Float = record r { audit_head_hash = head } in
          (
            ok final,
            record {
              repository = decided final (decided_case final at old) w.repository;
              ledger = ledger;
            },
          ))
  store_after_logged r at w old head ledger l dec =
      let final : DecisionResponse Float = record r { audit_head_hash = head } in
      ap
        (λ (res : Result HoldCase × Repository Float).
          (on_repository {A = HoldCase} (λ s. res) >>= λ saved. pure final)
            (record w { ledger = ledger }))
        (save_ok final at w.repository old l dec)

  store_logged :
      (x : Entry (Payload Float)) (r : DecisionResponse Float) (at : ℕ) (w : World Float)
      (old : HoldCase) (head : List ℕ) (ledger : List (Line (Payload Float)))
      → append parts.hashing x w.ledger ≡ (ok head, ledger)
      → lookup r.hold_id w.repository.cases ≡ some old
      → decision_eq r.decision evidence_needed ≡ false
      → store p parts x r at w ≡ (
          let final : DecisionResponse Float = record r { audit_head_hash = head } in
          (
            ok final,
            record {
              repository = decided final (decided_case final at old) w.repository;
              ledger = ledger;
            },
          ))
  unfolding store save_decision
  store_logged x r at w old head ledger logged l dec =
      ap (store_after r at w) logged ∙ store_after_logged r at w old head ledger l dec

  -- On a ledger that `verify` accepts, a decision that asks for no evidence is stored.
  store_total :
      (x : Entry (Payload Float)) (r : DecisionResponse Float) (at : ℕ) (w : World Float)
      (old : HoldCase) (rs : List (AuditRecord (Payload Float)))
      → lookup r.hold_id w.repository.cases ≡ some old
      → decision_eq r.decision evidence_needed ≡ false
      → records w.ledger ≡ ok rs
      → verify parts.hashing w.ledger ≡ ok (true, length rs)
      → (head : List ℕ) × (w' : World Float) × (store p parts x r at w
          ≡ (ok (record r { audit_head_hash = head }), w'))
        × (lookup r.hold_id w'.repository.cases
            ≡ some (record old { state = human_review; updated_at = at }))
        × (verify parts.hashing w'.ledger ≡ ok (true, suc (length rs)))
  unfolding store save_decision
  store_total x r at w old rs l dec e v =
      let (head, logged, verified) = append-verify parts.hashing digests x w.ledger rs e v in
      let final : DecisionResponse Float = record r { audit_head_hash = head } in
      let new = decided_case final at old in
      let ledger = w.ledger ++ entry (record_of parts.hashing x rs head) ∷ [] in
      (
        head,
        record { repository = decided final new w.repository; ledger = ledger },
        store_logged x r at w old head ledger logged l dec,
        rw (lookup-insert r.hold_id r.hold_id new w.repository.cases) (rw dec (ground arith)),
        verified,
      )

  -- A policy that cannot be asked, or the local one, escalates after an error.
  ask_error :
      (c : PolicyCheck Float) (res : Result PolicyResult)
      → c.system_error ≡ true
      → (res ≡ err policy_unavailable) ⊎ (res ≡ ok (check p c))
      → (r : PolicyResult) × (unavailable : Bool) × (ask res ≡ ok (r, unavailable))
        × (r.allowed_decision ≡ HoldDecision.escalate)
  unfolding ask check
  ask_error c res bad (inl e) = (fail_safe, true, rw e refl, refl)
  ask_error c res bad (inr e) = (check p c, false, rw e refl, ground (arith, bad))

  -- A draft that raises what `_score` catches goes to the policy as a failed one.
  score-failed :
      (hold : HoldCase) (x : HoldEvaluationInput Float) (evidence : Option (EvidenceRecord Float))
      (st : Stamps) (w : World Float) (y : Exception) (r : PolicyResult) (unavailable : Bool)
      → draft p parts hold x evidence ≡ err y
      → caught_by_score y ≡ true
      → ask (parts.policy (policy_request p parts hold (failed p parts none))) ≡ ok (r, unavailable)
      → score p parts hold x evidence st w
        ≡ conclude p parts hold (failed p parts none) (r, unavailable) st w
  unfolding score drafting
  score-failed hold x evidence st w y r unavailable e c a = rw e (rw c (rw a refl))

  -- Where the features, the model or the cost policy raises an exception that `_score` catches, and the
  -- policy is the local one or is unavailable, scoring a stored hold on a ledger that `verify` accepts
  -- still returns: the decision is ESCALATE, the hold goes to HUMAN_REVIEW, and `verify` accepts the
  -- ledger with one more record.
  pub score_fails_closed :
      (hold old : HoldCase) (x : HoldEvaluationInput Float)
      (evidence : Option (EvidenceRecord Float)) (st : Stamps) (w : World Float) (y : Exception)
      (rs : List (AuditRecord (Payload Float)))
      → lookup hold.hold_id w.repository.cases ≡ some old
      → draft p parts hold x evidence ≡ err y
      → caught_by_score y ≡ true
      → ((c : PolicyCheck Float)
          → (parts.policy c ≡ err policy_unavailable) ⊎ (parts.policy c ≡ ok (check p c)))
      → records w.ledger ≡ ok rs
      → verify parts.hashing w.ledger ≡ ok (true, length rs)
      → (d : DecisionResponse Float) × (w' : World Float) × (score p parts hold x evidence st w
          ≡ (ok d, w'))
        × (d.decision ≡ HoldDecision.escalate)
        × (lookup hold.hold_id w'.repository.cases
            ≡ some (record old { state = human_review; updated_at = st.saved_at }))
        × (verify parts.hashing w'.ledger ≡ ok (true, suc (length rs)))
  unfolding conclude
  score_fails_closed hold old x evidence st w y rs l e c pol recs v =
      let d0 = failed p parts none in
      let request = policy_request p parts hold d0 in
      let (r, unavailable, asked, escalates) =
        ask_error request (parts.policy request) refl (pol request) in
      let answer = response p parts hold d0 (r, unavailable) st in
      let (head, w', stored, moved, verified) =
        store_total (decision_entry p parts hold d0 answer st) answer st.saved_at w old rs l
          (rw escalates refl) recs v in
      (
        record answer { audit_head_hash = head },
        w',
        score-failed hold x evidence st w y r unavailable e c asked ∙ stored,
        escalates,
        moved,
        verified,
      )
