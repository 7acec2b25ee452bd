-- ===== src/Processor/Engine.antt =====
-- `RazorpayPaymentReconstructor` of src/razortrust/razorpay_processor.py.
use razor_trust.Processor.Normalize.{
  normalize_dispute, normalize_refund, normalize_settlement, normalize_payment,
}
use razor_trust.Processor.Extract.{
  extract_dispute_id, extract_settlement_id, extract_refund_id, extract_payment_id,
}
use razor_trust.Features.Statistics.{has_str}
use razor_trust.Processor.Records.{NormalizedProcessorPayment, RazorpayStoredEvent}
use razor_trust.Processor.Json.{Fields}
use razor_trust.Processor.Read.{prefixed_text, Codec}
use razor_trust.Common.{
  ℕ, zero, suc, String, Bool, true, false, not, ◌&&◌, ◌||◌, Option, none, some, List, [], ◌∷◌, ltb,
  leb, if◌then◌else◌, length,
}
use razor_trust.Common.Exec.{
  validation_error, other_error, type_error, api_error, Exception, Result, ok, err, Exec, pure,
  lift, ◌>>=◌, ◌>>◌, hold_not_found, invalid_transition, key_error, arithmetic_error, runtime_error,
  value_error, audit_format_error, policy_unavailable, authorization_unavailable, assertion_error,
  index_error,
}
use razor_trust.Common.Platform.{Platform}
use razor_trust.Processor.Store.{
  complete_refund_event, complete_dispute_event, complete_settlement_event, complete_payment_event,
  mark_retry, mark_skipped, mark_failed, pending_event_ids, recover_stale_processing, claim_event,
  Reconstruction, ErrorText, word, api_status,
}

abbrev pub payment_events : List String
payment_events =
    "payment.authorized" ∷ "payment.captured" ∷ "payment.failed" ∷ "payment.refunded" ∷ "order.paid"
    ∷ []

abbrev pub refund_events : List String
refund_events =
    "refund.created" ∷ "refund.processed" ∷ "refund.failed" ∷ "refund.speed_changed" ∷ []

abbrev pub settlement_events : List String
settlement_events = "settlement.processed" ∷ []

abbrev pub dispute_events : List String
dispute_events =
    "payment.dispute.created" ∷ "payment.dispute.won" ∷ "payment.dispute.lost"
    ∷ "payment.dispute.closed" ∷ "payment.dispute.under_review" ∷ "payment.dispute.action_required"
    ∷ []

-- What the engine asks for outside itself: the provider's answers, the checkout observer and the
-- clock. Each may differ from one attempt to the next: the numbers are the event and the attempt.
pub record Client : Type 0 where
  pub fetch_payment : (event attempt : ℕ) → String → Result Fields
  pub fetch_refund : (event attempt : ℕ) → String → Result Fields
  pub fetch_settlement : (event attempt : ℕ) → String → Result Fields
  pub fetch_dispute : (event attempt : ℕ) → String → Result Fields
  pub observe_payment_event :
      (event attempt : ℕ) → RazorpayStoredEvent → NormalizedProcessorPayment → Result (Unit {0})
  pub now : (event attempt : ℕ) → ℕ

-- What becomes of an event whose processing raised.
pub data Disposition : Type 0 where
  give_up : ErrorText → Disposition
  try_again : ErrorText → Disposition

abbrev api_text : Option ℕ → ErrorText
api_text none = word "RazorpayApiError"
api_text (some code) = api_status code

-- `type(exc).__name__`
abbrev pub error_name : Exception → String
error_name hold_not_found = "HoldNotFound"
error_name invalid_transition = "InvalidTransition"
error_name key_error = "KeyError"
error_name arithmetic_error = "OverflowError"
error_name runtime_error = "RuntimeError"
error_name value_error = "ValueError"
error_name audit_format_error = "AuditFormatError"
error_name policy_unavailable = "PolicyUnavailable"
error_name authorization_unavailable = "AuthorizationUnavailable"
error_name assertion_error = "AssertionError"
error_name index_error = "IndexError"
error_name type_error = "TypeError"
error_name validation_error = "ValidationError"
error_name (api_error code retryable) = "RazorpayApiError"
error_name (other_error name) = name

abbrev unless_spent : Bool → ErrorText → Disposition
unless_spent spent text = if spent then give_up text else try_again text

-- The `except` clauses of `process_event`, in their order.
unfoldable pub disposition : (max_attempts attempts : ℕ) → Exception → Disposition
disposition m n (api_error code retryable) = unless_spent (not retryable || leb m n) (api_text code)
disposition m n type_error = give_up (word "TypeError")
disposition m n value_error = give_up (word "ValueError")
disposition m n audit_format_error = give_up (word "AuditFormatError")
disposition m n validation_error = give_up (word "ValidationError")
disposition m n x = unless_spent (leb m n) (word (error_name x))

module _ (p : Platform) (c : Codec) (client : Client) where
  abbrev pub the_time : RazorpayStoredEvent → ℕ
  the_time e = client.now e.event_id e.processing_attempts

  abbrev pub process_payment : RazorpayStoredEvent → Option String → Exec Reconstruction (Unit {0})
  process_payment e none = mark_skipped e.event_id (word "no_payment_reference") (the_time e)
  process_payment e (some payment_id) = do
    payload ← lift (client.fetch_payment e.event_id e.processing_attempts payment_id)
    payment ← lift (normalize_payment p c payload e (the_time e))
    lift (client.observe_payment_event e.event_id e.processing_attempts e payment)
    complete_payment_event e.event_id payment (the_time e)

  abbrev pub process_refund : RazorpayStoredEvent → Option String → Exec Reconstruction (Unit {0})
  process_refund e none = mark_skipped e.event_id (word "no_refund_reference") (the_time e)
  process_refund e (some refund_id) = do
    refund_payload ← lift (client.fetch_refund e.event_id e.processing_attempts refund_id)
    payment_id ← lift (prefixed_text "pay_" "payment_id" refund_payload)
    payment_payload ← lift (client.fetch_payment e.event_id e.processing_attempts payment_id)
    payment ← lift (normalize_payment p c payment_payload e (the_time e))
    refund ← lift (normalize_refund p c refund_payload e payment.currency (the_time e))
    complete_refund_event e.event_id refund payment (the_time e)

  abbrev pub process_settlement :
      RazorpayStoredEvent → Option String → Exec Reconstruction (Unit {0})
  process_settlement e none = mark_skipped e.event_id (word "no_settlement_reference") (the_time e)
  process_settlement e (some settlement_id) = do
    payload ← lift (client.fetch_settlement e.event_id e.processing_attempts settlement_id)
    settlement ← lift (normalize_settlement p c payload e (the_time e))
    complete_settlement_event e.event_id settlement (the_time e)

  abbrev pub process_dispute : RazorpayStoredEvent → Option String → Exec Reconstruction (Unit {0})
  process_dispute e none = mark_skipped e.event_id (word "no_dispute_reference") (the_time e)
  process_dispute e (some dispute_id) = do
    dispute_payload ← lift (client.fetch_dispute e.event_id e.processing_attempts dispute_id)
    payment_id ← lift (prefixed_text "pay_" "payment_id" dispute_payload)
    payment_payload ← lift (client.fetch_payment e.event_id e.processing_attempts payment_id)
    payment ← lift (normalize_payment p c payment_payload e (the_time e))
    dispute ← lift (normalize_dispute p c dispute_payload e (the_time e))
    complete_dispute_event e.event_id dispute payment (the_time e)

  -- `_process_claimed_event`
  unfoldable pub process_claimed_event : RazorpayStoredEvent → Exec Reconstruction (Unit {0})
  process_claimed_event e =
      if has_str e.event_type payment_events
      then process_payment e (extract_payment_id e)
      else if has_str e.event_type refund_events
      then process_refund e (extract_refund_id e)
      else if has_str e.event_type settlement_events
      then process_settlement e (extract_settlement_id e)
      else if has_str e.event_type dispute_events
      then process_dispute e (extract_dispute_id e)
      else mark_skipped e.event_id (word "unsupported_r3b_event_type") (the_time e)

  module _ (max_attempts : ℕ) where
    abbrev pub dispose :
        Exec Reconstruction Bool → RazorpayStoredEvent → Disposition → Exec Reconstruction Bool
    dispose next e (give_up text) = do mark_failed e.event_id text (the_time e); pure true
    dispose next e (try_again text) = do mark_retry e.event_id text; next

    -- The `try` statement's result.
    abbrev pub settle :
        Exec Reconstruction Bool
        → RazorpayStoredEvent
        → Result (Unit {0}) × Reconstruction
        → Result Bool × Reconstruction
    settle next e (ok done, s) = (ok true, s)
    settle next e (err x, s) = dispose next e (disposition max_attempts e.processing_attempts x) s

    abbrev pub attempt_claimed :
        Exec Reconstruction Bool → Option RazorpayStoredEvent → Exec Reconstruction Bool
    attempt_claimed next none = pure true
    attempt_claimed next (some e) =
        if ltb max_attempts e.processing_attempts
        then dispose next e (give_up (word "retry_budget_exhausted"))
        else λ s. settle next e (process_claimed_event e s)

    -- The loop of `process_event`, for as many rounds as there is fuel; `false` where it runs out. The
    -- delay before the next round is left out.
    unfoldable pub process_event : (fuel : ℕ) → ℕ → Exec Reconstruction Bool
    unfolding process_claimed_event
    process_event zero event_id = pure false
    process_event (suc fuel) event_id = do
      e ← claim_event event_id
      attempt_claimed (process_event fuel event_id) e

    -- The loop of `process_pending`
    unfoldable pub process_each : (fuel : ℕ) → List ℕ → Exec Reconstruction Bool
    process_each fuel [] = pure true
    process_each fuel (id ∷ ids) = do
      done ← process_event fuel id
      rest ← process_each fuel ids
      pure (done && rest)

    unfoldable pub process_pending : (fuel limit stale_before : ℕ) → Exec Reconstruction (ℕ × Bool)
    process_pending fuel limit stale_before = do
      recovered ← recover_stale_processing stale_before
      ids ← pending_event_ids limit
      done ← process_each fuel ids
      pure (length ids, done)
