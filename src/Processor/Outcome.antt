-- ===== src/Processor/Outcome.antt =====
-- What one attempt at an event leaves behind.
use razor_trust.Processor.Extract.{
  extract_dispute_id, extract_settlement_id, extract_refund_id, extract_payment_id,
}
use razor_trust.Features.Statistics.{has_str}
use razor_trust.Processor.Engine.{
  dispute_events, settlement_events, refund_events, payment_events, process_refund,
  process_settlement, process_payment, process_claimed_event, process_dispute, Client,
}
use razor_trust.Processor.Read.{Codec}
use razor_trust.Processor.Records.{
  failed, processed, NormalizedProcessorDispute, NormalizedProcessorRefund, skipped,
  NormalizedProcessorSettlement, NormalizedProcessorPayment, ProcessingStatus, RazorpayStoredEvent,
}
use razor_trust.Common.{
  true, Bool, ℕ, String, ◌≡◌, refl, inl, inr, false, Option, none, some, Bool-cases,
}
use razor_trust.Common.Exec.{Result, ok, err, Exec, lift, ◌>>=◌}
use razor_trust.Common.Dict.{lookup, insert}
use razor_trust.Common.Platform.{Platform}
use razor_trust.Processor.Store.{
  complete_payment_event, complete_dispute_event, complete_refund_event, mark_skipped,
  complete_settlement_event, Reconstruction, ErrorText,
}

-- An event that nothing more happens to.
abbrev pub is_terminal : ProcessingStatus → Bool
is_terminal processed = true
is_terminal failed = true
is_terminal skipped = true
is_terminal _ = false

-- An attempt settles the event, or raises and writes nothing.
abbrev pub Leaves :
    RazorpayStoredEvent → Reconstruction → Result (Unit {0}) × Reconstruction → Type 0
Leaves e s (ok done, s') =
    (st : ProcessingStatus) × (is_terminal st ≡ true)
    × (s'.events ≡ insert e.event_id (record e { processing_status = st }) s.events)
Leaves e s (err x, s') = s' ≡ s

-- An action that does so.
unfoldable Attempts : RazorpayStoredEvent → Reconstruction → Exec Reconstruction (Unit {0}) → Type 0
Attempts e s m = Leaves e s (m s)

module _ (e : RazorpayStoredEvent) (s : Reconstruction) where
  Attempts-lift :
      {A : Type 0} (r : Result A) (k : A → Exec Reconstruction (Unit {0}))
      → ((a : A) → Attempts e s (k a))
      → Attempts e s (lift r >>= k)
  unfolding Attempts
  Attempts-lift (ok a) k h = h a
  Attempts-lift (err x) k h = refl

  module _ (l : lookup e.event_id s.events ≡ some e) where
    mark_skipped-Attempts :
        (text : ErrorText) (now : ℕ) → Attempts e s (mark_skipped e.event_id text now)
    unfolding Attempts mark_skipped
    mark_skipped-Attempts text now = rw l (skipped, refl, refl)

    complete_payment-Attempts :
        (x : NormalizedProcessorPayment) (now : ℕ)
        → Attempts e s (complete_payment_event e.event_id x now)
    unfolding Attempts complete_payment_event
    complete_payment-Attempts x now = rw l (processed, refl, refl)

    complete_refund-Attempts :
        (x : NormalizedProcessorRefund) (y : NormalizedProcessorPayment) (now : ℕ)
        → Attempts e s (complete_refund_event e.event_id x y now)
    unfolding Attempts complete_refund_event
    complete_refund-Attempts x y now = rw l (processed, refl, refl)

    complete_settlement-Attempts :
        (x : NormalizedProcessorSettlement) (now : ℕ)
        → Attempts e s (complete_settlement_event e.event_id x now)
    unfolding Attempts complete_settlement_event
    complete_settlement-Attempts x now = rw l (processed, refl, refl)

    complete_dispute-Attempts :
        (x : NormalizedProcessorDispute) (y : NormalizedProcessorPayment) (now : ℕ)
        → Attempts e s (complete_dispute_event e.event_id x y now)
    unfolding Attempts complete_dispute_event
    complete_dispute-Attempts x y now = rw l (processed, refl, refl)

    ruleset completions = (
      Attempts-lift, mark_skipped-Attempts, complete_payment-Attempts, complete_refund-Attempts,
      complete_settlement-Attempts, complete_dispute-Attempts,
    )

    module _ (p : Platform) (c : Codec) (client : Client) where
      process_payment-Attempts :
          (id : Option String) → Attempts e s (process_payment p c client e id)
      process_payment-Attempts none = search completions
      process_payment-Attempts (some id) = search completions

      process_refund-Attempts : (id : Option String) → Attempts e s (process_refund p c client e id)
      process_refund-Attempts none = search completions
      process_refund-Attempts (some id) = search completions depth 8

      process_settlement-Attempts :
          (id : Option String) → Attempts e s (process_settlement p c client e id)
      process_settlement-Attempts none = search completions
      process_settlement-Attempts (some id) = search completions

      process_dispute-Attempts :
          (id : Option String) → Attempts e s (process_dispute p c client e id)
      process_dispute-Attempts none = search completions
      process_dispute-Attempts (some id) = search completions depth 8

      pub process_claimed-Leaves : Leaves e s (process_claimed_event p c client e s)
      unfolding Attempts process_claimed_event
      process_claimed-Leaves = elim (Bool-cases (has_str e.event_type payment_events)) [
        | inl pay ↦ rw pay (process_payment-Attempts (extract_payment_id e))
        | inr a ↦ rw a (elim (Bool-cases (has_str e.event_type refund_events)) [
          | inl refund ↦ rw refund (process_refund-Attempts (extract_refund_id e))
          | inr b ↦ rw b (elim (Bool-cases (has_str e.event_type settlement_events)) [
            | inl settle ↦ rw settle (process_settlement-Attempts (extract_settlement_id e))
            | inr d ↦ rw d (elim (Bool-cases (has_str e.event_type dispute_events)) [
              | inl dispute ↦ rw dispute (process_dispute-Attempts (extract_dispute_id e))
              | inr other ↦ rw other (mark_skipped-Attempts _ _)
            ])
          ])
        ])
      ]
