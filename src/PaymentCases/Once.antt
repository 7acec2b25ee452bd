-- ===== src/PaymentCases/Once.antt =====
-- The same payment of the same account gets the same hold again (src/razortrust/payment_case_bridge.py and `HoldService.create_hold`).
use razor_trust.PaymentCases.{
  receipt_of, hold_for, case_for, PaymentCaseReceipt, create_or_get, candidate_of, lookup_error,
  is_identifier, find_payment, ProcessorPaymentRow, hold_request, get_candidate, PaymentCandidate,
}
use razor_trust.Database.Queries.{first_where}
use razor_trust.Common.Exec.{bind_ok, bind_returns}
use razor_trust.Audit.{append}
use razor_trust.Workflow.State.{entry_of, hold_created}
use razor_trust.Common.{
  ℕ, String, ◌≡◌, refl, sym, ap, ◌∙◌, inl, inr, Bool, true, false, ◌&&◌, Option, none, some, List,
  [], ◌∷◌, arith, str_eq, eq_iff, Bool-cases, Option-cases,
}
use razor_trust.Common.Exec.{Result, ok, err, Exec, pure, lift, ◌>>=◌}
use razor_trust.Common.Platform.{Platform}
use razor_trust.Audit.{Line}
use razor_trust.Workflow.State.{on_ledger}
use razor_trust.Common.{
  ℕ, String, ◌≡◌, refl, sym, ap, ◌∙◌, inl, inr, Bool, true, false, ◌&&◌, Option, none, some, List,
  [], ◌∷◌, arith, str_eq, eq_iff, Bool-cases, Option-cases,
}
use razor_trust.Common.Exec.{ok_injective, Result, ok, err, Exec, pure, lift, ◌>>=◌}
use razor_trust.Common.Platform.{Platform}
use razor_trust.Repository.Idempotence.{create_again}
use razor_trust.Repository.Cases
use razor_trust.Workflow.{create_hold, log_creation}
use razor_trust.Workflow.State.{World, Payload, on_repository}
use razor_trust.Audit.{Hashing}
use razor_trust.Domain.{HoldCreate, HoldCase}
use razor_trust.Common.{
  ℕ, String, ◌≡◌, refl, sym, ap, ◌∙◌, inl, inr, Bool, true, false, ◌&&◌, Option, none, some, List,
  [], ◌∷◌, arith, str_eq, eq_iff, Bool-cases, Option-cases,
}
use razor_trust.Common.Exec.{Result, ok, err, Exec, pure, lift, ◌>>=◌}
use razor_trust.Common.Platform.{Platform}

module _ (p : Platform) (h : Hashing (Payload p.Float)) where
  kept_by :
      (k : HoldCase) (b : Bool) (s : World p.Float) (w' : World p.Float) (hold : HoldCase)
      (new : Bool)
      → Path (Result (HoldCase × Bool) × World p.Float) (ok (k, b), s) (ok (hold, new), w')
      → (k ≡ hold) × (w'.repository ≡ s.repository)
  kept_by k b s w' hold new q =
      (ap (λ x. x.0) (ok_injective (ap (λ x. x.0) q)), ap (λ x. x.1.repository) (sym q))

  logged-keeps :
      {A : Type 0} (m : Exec (List (Line (Payload p.Float))) A) (k : HoldCase)
      (w w' : World p.Float) (hold : HoldCase) (new : Bool)
      → ◌>>=◌ {B = HoldCase × Bool} (on_ledger m) (λ _. pure (k, true)) w ≡ (ok (hold, new), w')
      → (k ≡ hold) × (w'.repository ≡ w.repository)
  logged-keeps m k w w' hold new q =
      let (a, e, rest) = bind_returns (on_ledger m) (λ _. pure (k, true)) w w' (hold, new) q in
      kept_by k true _ w' hold new rest

  log_creation-keeps :
      (result : HoldCase × Bool) (id later : ℕ) (w w' : World p.Float) (hold : HoldCase)
      (new : Bool)
      → log_creation p h result id later w ≡ (ok (hold, new), w')
      → (result.0 ≡ hold) × (w'.repository ≡ w.repository)
  log_creation-keeps (k, false) id later w w' hold new q = kept_by k false w w' hold new q
  log_creation-keeps (k, true) id later w w' hold new q =
      logged-keeps
        (append h (entry_of k.hold_id "hold-intake" "HOLD_CREATED" (hold_created k) id later)) k w
        w' hold new q

  create_hold_again :
      (r again : HoldCreate) (fresh now now' id later fresh' at at' id' later' : ℕ)
      (w w' : World p.Float) (hold : HoldCase) (new : Bool)
      → again.request_id ≡ r.request_id
      → create_hold p h r fresh now now' id later w ≡ (ok (hold, new), w')
      → create_hold p h again fresh' at at' id' later' w' ≡ (ok (hold, false), w')
  unfolding create_hold
  create_hold_again r again fresh now now' id later fresh' at at' id' later' w w' hold new same q =
      let ((k, b), e, rest) =
        bind_returns (on_repository (Cases.create r fresh now now'))
          (λ x. log_creation p h x id later) w w' (hold, new) q in
      let (found, kept) = log_creation-keeps (k, b) id later _ w' hold new rest in
      let first : Cases.create r fresh now now' w.repository ≡ (ok (hold, b), w'.repository) =
        λ i. ((e ∙ ap (λ y. ok (y, b)) found) i, sym kept i) in
      let second =
        create_again r again fresh now now' fresh' at at' w.repository w'.repository hold b same
          first in
      let found_again : on_repository (Cases.create again fresh' at at') w'
          ≡ (ok (hold, false), w') =
        ap (λ x. (x.0, record w' { repository = x.1 })) second in
      bind_ok (on_repository (Cases.create again fresh' at at'))
        (λ x. log_creation p h x id' later') w' w' (hold, false) found_again

module _ (lower strip trim : String → String) where
  -- The payment of a candidate is the one that was asked for.
  find_payment-id :
      (payment_id : String) (rs : List ProcessorPaymentRow) (r : ProcessorPaymentRow)
      → find_payment payment_id rs ≡ some r
      → r.payment_id ≡ payment_id
  unfolding first_where
  find_payment-id payment_id [] r q = ground arith
  find_payment-id payment_id (x ∷ xs) r q = elim (Bool-cases (str_eq x.payment_id payment_id)) [
    | inl same ↦
        let found : some x ≡ some r = rw same at q in
        sym (
          ap
            (λ (o : Option ProcessorPaymentRow). elim o [
              | none ↦ x.payment_id
              | some y ↦ y.payment_id
            ])
            found)
        ∙ (eq_iff x.payment_id payment_id).0 same
    | inr other ↦ find_payment-id payment_id xs r (rw other at q)
  ]

  get_candidate-id :
      (payment_id : String) (rs : List ProcessorPaymentRow) (k : PaymentCandidate)
      → get_candidate lower strip trim rs payment_id ≡ ok k
      → k.payment_id ≡ trim payment_id
  unfolding get_candidate
  get_candidate-id payment_id rs k q = elim (Option-cases (find_payment payment_id rs)) [
    | inl e ↦
        let refused : Path (Result PaymentCandidate) (err lookup_error) (ok k) =
          rw (e, get_candidate) at q in
        ground arith
    | inr (r, e) ↦
        let found : Path (Result PaymentCandidate) (ok (candidate_of lower strip trim r)) (ok k) =
          rw (e, get_candidate) at q in
        sym (ap (λ x. x.payment_id) (ok_injective found))
        ∙ ap trim (find_payment-id payment_id rs r e)
  ]

hold_request-key :
    (trim : String → String) (uuid5 : String → ℕ) (k again : PaymentCandidate) (r : HoldCreate)
    → again.account_id ≡ k.account_id
    → again.payment_id ≡ k.payment_id
    → hold_request trim uuid5 k ≡ ok r
    → (r' : HoldCreate) × (hold_request trim uuid5 again ≡ ok r') × (r'.request_id ≡ r.request_id)
hold_request-key trim uuid5 k again r a b q =
    elim (Bool-cases (is_identifier (trim k.account_id) && is_identifier (trim k.payment_id))) [
      | inl valid ↦
          let same = ok_injective (rw valid at q) in
          rw (a, b) (rw valid (_, refl, ap (λ x. x.request_id) same))
      | inr invalid ↦ let refused = rw invalid at q in ground arith
    ]

module _ (p : Platform) (h : Hashing (Payload p.Float)) (lower strip trim : String → String)
    (uuid5 : String → ℕ) where
  -- After `create_or_get` returned a receipt for a payment, `create_or_get` for the same
  -- payment, whatever the table of payments says of it by then, if it is still found and of the
  -- same account, returns the same hold and key with the payment as it is then, flagged as not
  -- new, and writes neither to the repository nor to the ledger.
  pub create_or_get_again :
      (payments later_payments : List ProcessorPaymentRow) (payment_id : String)
      (fresh now now' id later fresh' at at' id' later' : ℕ) (w w' : World p.Float)
      (c : PaymentCaseReceipt) (k : PaymentCandidate)
      → create_or_get p h lower strip trim uuid5 payments payment_id fresh now now' id later w
        ≡ (ok c, w')
      → get_candidate lower strip trim later_payments payment_id ≡ ok k
      → k.account_id ≡ c.payment.account_id
      → create_or_get p h lower strip trim uuid5 later_payments payment_id fresh' at at' id' later'
          w'
        ≡ (
          ok (record {
            payment = k;
            hold = c.hold;
            is_new = false;
            idempotency_key = c.idempotency_key;
          }),
          w',
        )
  unfolding create_or_get
  create_or_get_again payments later_payments payment_id fresh now now' id later fresh' at at' id'
        later' w w' c k q found same =
      let case = case_for p h lower strip trim uuid5 fresh now now' id later in
      let (k0, e0, q0) =
        bind_returns (lift (get_candidate lower strip trim payments payment_id)) case w w' c q in
      let hold_of = hold_for p h lower strip trim uuid5 fresh now now' id later k0 in
      let (r0, e1, q1) = bind_returns (lift (hold_request trim uuid5 k0)) hold_of w w' c q0 in
      let receipt =
        λ (x : HoldCase × Bool). pure {S = World p.Float} (receipt_of k0 r0.request_id x) in
      let ((hold, new), e2, q2) =
        bind_returns (create_hold p h r0 fresh now now' id later) receipt w w' c q1 in
      let given : receipt_of k0 r0.request_id (hold, new) ≡ c = ok_injective (ap (λ x. x.0) q2) in
      let first : create_hold p h r0 fresh now now' id later w ≡ (ok (hold, new), w') =
        λ i. (e2 i, (q2 i).1) in
      let same_payment =
        get_candidate-id lower strip trim payment_id later_payments k found
        ∙ sym (get_candidate-id lower strip trim payment_id payments k0 e0) in
      let same_account = same ∙ sym (ap (λ (x : PaymentCaseReceipt). x.payment.account_id) given) in
      let (r', e', key) = hold_request-key trim uuid5 k0 k r0 same_account same_payment e1 in
      let second =
        create_hold_again p h r0 r' fresh now now' id later fresh' at at' id' later' w w' hold new
          key first in
      bind_ok (lift (get_candidate lower strip trim later_payments payment_id))
        (case_for p h lower strip trim uuid5 fresh' at at' id' later') w' w' k (λ i. (found i, w'))
      ∙ bind_ok (lift (hold_request trim uuid5 k))
          (hold_for p h lower strip trim uuid5 fresh' at at' id' later' k) w' w' r'
          (λ i. (e' i, w'))
      ∙ bind_ok (create_hold p h r' fresh' at at' id' later')
          (λ x. pure (receipt_of k r'.request_id x)) w' w' (hold, false) second
      ∙ (λ i. (
        ok (
            receipt_of k ((key ∙ ap (λ (x : PaymentCaseReceipt). x.idempotency_key) given) i)
              ((given i).hold, false)),
        w',
      ))
