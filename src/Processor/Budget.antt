-- ===== src/Processor/Budget.antt =====
-- Termination, budget and isolation of `process_event`.
use razor_trust.Processor.Outcome.{is_terminal}
use razor_trust.Processor.Progress.{
  claim_event-idle, claim_event-absent, process_event-Settles, Settles,
}
use razor_trust.Processor.Store.{claim_event, is_pending, Reconstruction}
use razor_trust.Processor.Records.{RazorpayStoredEvent}
use razor_trust.Processor.Engine.{attempt_claimed, process_event, Client}
use razor_trust.Processor.Read.{Codec}
use razor_trust.Common.{ℕ, suc, ◌+◌, ◌≤◌, ◌<◌, ◌≡◌, ◌≢◌, ◌⊎◌, Bool, true, false, none, some, arith}
use razor_trust.Common.Exec.{bind_ok, Result, ok}
use razor_trust.Common.Dict.{lookup-insert-other, lookup-inserted, lookup}
use razor_trust.Common.Platform.{Platform}

-- A waiting event, under its own key, with fuel for the attempts that are left.
module _ (p : Platform) (c : Codec) (client : Client) (m fuel : ℕ) (e : RazorpayStoredEvent)
    (s : Reconstruction) (l : lookup e.event_id s.events ≡ some e)
    (w : is_pending e.processing_status ≡ true) (enough : m < fuel) where
  abbrev run : Result Bool × Reconstruction
  run = process_event p c client m fuel e.event_id s

  run-Settles : Settles m e s.events run
  run-Settles = process_event-Settles p c client m fuel e s l w (omega arith)

  -- On a waiting event the loop of `process_event` ends within `max_attempts` + 1 rounds,
  -- without an exception, with the event PROCESSED, FAILED or SKIPPED, whatever the provider,
  -- the observer and the clock answer or raise at any attempt.
  pub process_event_settles :
      (s' : Reconstruction) × (e' : RazorpayStoredEvent) × (process_event p c client m fuel
          e.event_id s
        ≡ (ok true, s'))
      × (lookup e.event_id s'.events ≡ some e')
      × (is_terminal e'.processing_status ≡ true)
  process_event_settles =
      let (s', st, n, r, t, lt, le, h) = run-Settles in
      (
        s',
        record e { processing_status = st; processing_attempts = n },
        r,
        rw h (lookup-inserted e.event_id _ _),
        t,
      )

  -- A run of `process_event` on a waiting event raises its count of attempts, to at most
  -- `max_attempts`, or by exactly one.
  pub process_event_budget :
      (s' : Reconstruction) × (e' : RazorpayStoredEvent) × (process_event p c client m fuel
          e.event_id s
        ≡ (ok true, s'))
      × (lookup e.event_id s'.events ≡ some e')
      × (e.processing_attempts < e'.processing_attempts)
      × ((e'.processing_attempts ≤ m) ⊎ (e'.processing_attempts ≡ e.processing_attempts + 1))
  process_event_budget =
      let (s', st, n, r, t, lt, le, h) = run-Settles in
      (
        s',
        record e { processing_status = st; processing_attempts = n },
        r,
        rw h (lookup-inserted e.event_id _ _),
        lt,
        le,
      )

  -- A run of `process_event` on a waiting event leaves every other event as it was.
  pub process_event_others :
      (j : ℕ)
      → e.event_id ≢ j
      → (s' : Reconstruction) × (process_event p c client m fuel e.event_id s ≡ (ok true, s'))
        × (lookup j s'.events ≡ lookup j s.events)
  process_event_others j ne =
      let (s', st, n, r, t, lt, le, h) = run-Settles in
      (s', r, rw h (lookup-insert-other e.event_id j _ _ ne))

module _ (p : Platform) (c : Codec) (client : Client) (m fuel : ℕ) where
  -- A run of `process_event` on an event that does not wait, as one that is being processed or
  -- is settled, returns and changes nothing.
  pub process_event_idle :
      (id : ℕ) (s : Reconstruction) (e : RazorpayStoredEvent)
      → lookup id s.events ≡ some e
      → is_pending e.processing_status ≡ false
      → process_event p c client m (suc fuel) id s ≡ (ok true, s)
  unfolding process_event
  process_event_idle id s e l w =
      bind_ok (claim_event id) (attempt_claimed p c client m (process_event p c client m fuel id)) s
        s none (claim_event-idle id e s l w)

  pub process_event_absent :
      (id : ℕ) (s : Reconstruction)
      → lookup id s.events ≡ none
      → process_event p c client m (suc fuel) id s ≡ (ok true, s)
  unfolding process_event
  process_event_absent id s l =
      bind_ok (claim_event id) (attempt_claimed p c client m (process_event p c client m fuel id)) s
        s none (claim_event-absent id s l)
