-- ===== src/Processor/Progress.antt =====
-- The loop of `process_event` ends, with the event settled.
use Prim.Native.Nat.{zero}
use mathlib.Core.Path.{sym, subst}
use razor_trust.Processor.Outcome.{process_claimed-Leaves, Leaves, is_terminal}
use razor_trust.Processor.Read.{Codec}
use razor_trust.Common.Platform.{Platform}
use razor_trust.Processor.Engine.{
  the_time, give_up, dispose, settle, attempt_claimed, Disposition, process_event, Client,
  try_again, disposition,
}
use razor_trust.Common.{
  none, false, ltb, Bool-cases, ap, ◌⊎◌, ◌∙◌, suc, ◌≤◌, ◌-◌, inl, inr, ◌+◌, Bool, ℕ, ◌<◌, ◌≡◌, refl,
  true, some, arith,
}
use razor_trust.Common.Exec.{pure, bind_ok, err, Exec, api_error, Exception, Result, ok}
use razor_trust.Common.Dict.{lookup-inserted, insert-insert, Dict, lookup, insert}
use razor_trust.Processor.Records.{ProcessingStatus, RazorpayStoredEvent, failed, retry}
use razor_trust.Processor.Store.{
  word, claimed, is_pending, mark_retry, claim_event, mark_failed, Reconstruction, ErrorText,
}

-- A mark on a known event.
abbrev Marks :
    ℕ
    → RazorpayStoredEvent
    → ProcessingStatus
    → Reconstruction
    → Result (Unit {0}) × Reconstruction
    → Type 0
Marks id e st s res =
    (s' : Reconstruction) × (res ≡ (ok tt, s'))
    × (s'.events ≡ insert id (record e { processing_status = st }) s.events)

module _ (id : ℕ) (e : RazorpayStoredEvent) (s : Reconstruction)
    (l : lookup id s.events ≡ some e) where
  mark_failed-Marks : (text : ErrorText) (now : ℕ) → Marks id e failed s (mark_failed id text now s)
  unfolding mark_failed
  mark_failed-Marks text now = rw l (_, refl, refl)

  mark_retry-Marks : (text : ErrorText) → Marks id e retry s (mark_retry id text s)
  unfolding mark_retry
  mark_retry-Marks text = rw l (_, refl, refl)

  claim_event-claimed :
      is_pending e.processing_status ≡ true
      → claim_event id s
        ≡ (ok (some (claimed e)), record s { events = insert id (claimed e) s.events })
  unfolding claim_event
  claim_event-claimed pending = rw l (rw pending refl)

pub claim_event-idle :
    (id : ℕ) (e : RazorpayStoredEvent) (s : Reconstruction)
    → lookup id s.events ≡ some e
    → is_pending e.processing_status ≡ false
    → claim_event id s ≡ (ok none, s)
unfolding claim_event
claim_event-idle id e s l w = rw l (rw w refl)

pub claim_event-absent :
    (id : ℕ) (s : Reconstruction) → lookup id s.events ≡ none → claim_event id s ≡ (ok none, s)
unfolding claim_event
claim_event-absent id s l = rw l refl

-- Only an attempt that is not the last is tried again.
try_again_early :
    (m n : ℕ) (x : Exception) (text : ErrorText) → disposition m n x ≡ try_again text → n < m
unfolding disposition
try_again_early m n (api_error code retryable) text h = ground arith
try_again_early m n x text h = ground arith

-- How the loop ends: the event has a terminal status, its attempts have grown, past the budget
-- only where this was the first, and no other event is touched.
abbrev pub Settles :
    (max_attempts : ℕ)
    → RazorpayStoredEvent
    → Dict RazorpayStoredEvent
    → Result Bool × Reconstruction
    → Type 0
Settles m e d res =
    (s' : Reconstruction) × (st : ProcessingStatus) × (n : ℕ) × (res ≡ (ok true, s'))
    × (is_terminal st ≡ true)
    × (e.processing_attempts < n)
    × ((n ≤ m) ⊎ (n ≡ e.processing_attempts + 1))
    × (s'.events
        ≡ insert e.event_id (record e { processing_status = st; processing_attempts = n }) d)

module _ (p : Platform) (c : Codec) (client : Client) (m : ℕ) (e : RazorpayStoredEvent)
    (d : Dict RazorpayStoredEvent) where
  -- The round that is the last.
  settled_now :
      (s' : Reconstruction) (st : ProcessingStatus)
      → is_terminal st ≡ true
      → s'.events
        ≡ insert e.event_id
            (record (claimed e) { processing_status = st })
            (insert e.event_id (claimed e) d)
      → Settles m e d (ok true, s')
  settled_now s' st t h = (
    s',
    st,
    e.processing_attempts + 1,
    refl,
    t,
    omega arith,
    inr refl,
    h ∙ insert-insert e.event_id _ _ d,
  )

  module _ (next : Exec Reconstruction Bool) where
    -- What a further round must do, on the event as it is marked for it.
    abbrev Continues : Type 0
    Continues =
        (s₂ : Reconstruction)
        → e.processing_attempts + 1 < m
        → s₂.events
          ≡ insert e.event_id (record (claimed e) { processing_status = retry })
              (insert e.event_id (claimed e) d)
        → Settles m e d (next s₂)

    module _ (s₁ : Reconstruction) (b : s₁.events ≡ insert e.event_id (claimed e) d) where
      known : lookup e.event_id s₁.events ≡ some (claimed e)
      known = rw b (lookup-inserted e.event_id _ _)

      dispose-Settles :
          (x : Disposition)
          → ((text : ErrorText) → x ≡ try_again text → e.processing_attempts + 1 < m)
          → Continues
          → Settles m e d (dispose p c client m next (claimed e) x s₁)
      dispose-Settles (give_up text) early go =
          let now = the_time p c client (claimed e) in
          let (s₂, r, h) = mark_failed-Marks e.event_id (claimed e) s₁ known text now in
          subst (Settles m e d)
            (sym (bind_ok (mark_failed e.event_id text now) (λ _. pure true) s₁ s₂ tt r))
            (settled_now s₂ failed refl (h ∙ ap (insert e.event_id _) b))
      dispose-Settles (try_again text) early go =
          let (s₂, r, h) = mark_retry-Marks e.event_id (claimed e) s₁ known text in
          subst (Settles m e d) (sym (bind_ok (mark_retry e.event_id text) (λ _. next) s₁ s₂ tt r))
            (go s₂ (early text refl) (h ∙ ap (insert e.event_id _) b))

    settle-Settles :
        (s₁ : Reconstruction)
        → s₁.events ≡ insert e.event_id (claimed e) d
        → (res : Result (Unit {0}) × Reconstruction) → Leaves (claimed e) s₁ res
        → Continues
        → Settles m e d (settle p c client m next (claimed e) res)
    settle-Settles s₁ b (ok done, s₂) (st, t, h) go =
        settled_now s₂ st t (h ∙ ap (insert e.event_id _) b)
    settle-Settles s₁ b (err x, s₂) h go =
        dispose-Settles s₂ (ap (λ s. s.events) h ∙ b) _
          (λ text eq. try_again_early m (e.processing_attempts + 1) x text eq) go

    attempt-Settles :
        (s₁ : Reconstruction)
        → s₁.events ≡ insert e.event_id (claimed e) d
        → Continues
        → Settles m e d (attempt_claimed p c client m next (some (claimed e)) s₁)
    attempt-Settles s₁ b go = elim (Bool-cases (ltb m (e.processing_attempts + 1))) [
      | inl spent ↦ rw spent (
          dispose-Settles s₁ b (give_up (word "retry_budget_exhausted")) (λ text eq. ground arith)
            go)
      | inr early ↦
          rw early (
            settle-Settles s₁ b _ (process_claimed-Leaves (claimed e) s₁ (known s₁ b) p c client)
              go)
    ]

-- The event as it is marked for a further round.
abbrev again : RazorpayStoredEvent → RazorpayStoredEvent
again e = record (claimed e) { processing_status = retry }

-- What the further rounds do is what the loop does.
resumed :
    (m : ℕ) (e : RazorpayStoredEvent) (d : Dict RazorpayStoredEvent) (s₂ : Reconstruction)
    (res : Result Bool × Reconstruction)
    → e.processing_attempts + 1 < m
    → s₂.events ≡ insert e.event_id (again e) (insert e.event_id (claimed e) d)
    → Settles m (again e) s₂.events res
    → Settles m e d res
resumed m e d s₂ res early b (s', st, n, r, t, lt, le, h) = (
  s',
  st,
  n,
  r,
  t,
  omega arith,
  inl (elim le [ inl x ↦ x | inr y ↦ omega arith ]),
  h ∙ ap (insert e.event_id _) b ∙ insert-insert e.event_id _ _ _ ∙ insert-insert e.event_id _ _ d,
)

-- A round on an event that waits for one.
abbrev Runs : Platform → Codec → Client → ℕ → ℕ → Type 0
Runs p c client m fuel =
    (e : RazorpayStoredEvent) (s : Reconstruction)
    → lookup e.event_id s.events ≡ some e
    → is_pending e.processing_status ≡ true
    → m - e.processing_attempts < fuel
    → Settles m e s.events (process_event p c client m fuel e.event_id s)

module _ (p : Platform) (c : Codec) (client : Client) (m : ℕ) where
  pub process_event-Settles : (fuel : ℕ) → Runs p c client m fuel
  unfolding process_event
  process_event-Settles zero e s l w h = ground arith
  process_event-Settles (suc fuel) e s l w h =
      subst (Settles m e s.events)
        (sym (
          bind_ok (claim_event e.event_id)
            (attempt_claimed p c client m (process_event p c client m fuel e.event_id)) s _ _
            (claim_event-claimed e.event_id e s l w)))
        (attempt-Settles p c client m e s.events (process_event p c client m fuel e.event_id) _ refl
          (λ s₂ early b. resumed m e s.events s₂ _ early b (
            process_event-Settles fuel (again e) s₂ (rw b (lookup-inserted e.event_id _ _)) refl
              (omega arith))))
