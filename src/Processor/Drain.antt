-- ===== src/Processor/Drain.antt =====
-- When `process_pending` leaves no event waiting.
use razor_trust.Common.Slices.{take_all}
use razor_trust.Processor.Budget.{process_event_idle, process_event_absent}
use razor_trust.Processor.Progress.{process_event-Settles}
use razor_trust.Processor.Engine.{process_pending, process_event, process_each, Client}
use razor_trust.Processor.Read.{Codec}
use mathlib.Core.List.{Memᴰ}
use mathlib.Core.List.Memᴰ
use mathlib.Core.Path.{subst}
use razor_trust.Processor.Outcome.{is_terminal}
use razor_trust.Processor.Store.{
  pending_event_ids, recover_stale_processing, pending_ids, is_pending, Reconstruction,
}
use razor_trust.Processor.Records.{RazorpayStoredEvent, ProcessingStatus}
use razor_trust.Common.{
  ℕ, suc, ◌≤◌, ◌<◌, ◌≡◌, refl, sym, ◌∙◌, ◌≢◌, inl, inr, Bool, true, false, ◌&&◌, none, some, List,
  [], ◌∷◌, arith, ◌==◌, if◌then◌else◌, Bool-cases, Option-cases, length,
}
use razor_trust.Common.Exec.{bind_ok, Result, ok, pure, ◌>>=◌}
use razor_trust.Common.Dict.{Dict, lookup, insert, lookup-insert}
use razor_trust.Common.Platform.{Platform}

-- An event that waits for a round.
abbrev pub Waits : ℕ → Reconstruction → Type 0
Waits j s =
    (e : RazorpayStoredEvent) × (lookup j s.events ≡ some e)
    × (is_pending e.processing_status ≡ true)

-- Every event is filed under its own number.
abbrev pub IsKeyed : Reconstruction → Type 0
IsKeyed s = (j : ℕ) (e : RazorpayStoredEvent) → lookup j s.events ≡ some e → e.event_id ≡ j

-- The numbers of the waiting events are among these.
abbrev pub Covers : List ℕ → Reconstruction → Type 0
Covers ids s = (j : ℕ) → Waits j s → Memᴰ j ids

-- A run at one event: the event waits no more, and no other event begins to.
abbrev Finishes : ℕ → Reconstruction → Result Bool × Reconstruction → Type 0
Finishes id s res =
    (s' : Reconstruction) × (res ≡ (ok true, s'))
    × IsKeyed s'
    × ((j : ℕ) → Waits j s' → (id ≢ j) × Waits j s)

-- Nothing waits at a number whose event is terminal.
terminal-idle : (st : ProcessingStatus) → is_terminal st ≡ true → is_pending st ≡ false
terminal-idle st t = ground arith

module _ (id : ℕ) (s : Reconstruction) where
  Waits-here :
      (e : RazorpayStoredEvent)
      → lookup id s.events ≡ some e
      → is_pending e.processing_status ≡ false
      → ¬ Waits id s
  Waits-here e l w (e', l', w') = ground arith

  Waits-absent : lookup id s.events ≡ none → ¬ Waits id s
  Waits-absent l (e', l', w') = ground arith

-- What does not wait is not what waits.
elsewhere :
    (id : ℕ) (s : Reconstruction) → ¬ Waits id s → (j : ℕ) → Waits j s → (id ≢ j) × Waits j s
elsewhere id s h j w = (λ e. h (subst (λ i. Waits i s) (sym e) w), w)

-- Replacing an event by a terminal one, under its own number.
module _ (e e' : RazorpayStoredEvent) (s s' : Reconstruction) (same : e'.event_id ≡ e.event_id)
    (t : is_terminal e'.processing_status ≡ true)
    (h : s'.events ≡ insert e.event_id e' s.events) where
  replaced : (j : ℕ) → lookup j s'.events ≡ (if e.event_id == j then some e' else lookup j s.events)
  replaced j = rw h (lookup-insert e.event_id j e' s.events)

  replaced-IsKeyed : IsKeyed s → IsKeyed s'
  replaced-IsKeyed keyed j x l = elim (Bool-cases (e.event_id == j)) [
    | inl here ↦ ground (arith, replaced j)
    | inr there ↦ keyed j x (sym (rw there at (replaced j)) ∙ l)
  ]

  replaced-Waits : (j : ℕ) → Waits j s' → (e.event_id ≢ j) × Waits j s
  replaced-Waits j (x, l, w) = elim (Bool-cases (e.event_id == j)) [
    | inl here ↦
        elim (Waits-here j s' e' (rw here at (replaced j)) (terminal-idle _ t) (x, l, w)) [ ]
    | inr there ↦ (ground arith, (x, sym (rw there at (replaced j)) ∙ l, w))
  ]

module _ (p : Platform) (c : Codec) (client : Client) (m fuel : ℕ) (enough : m < suc fuel) where
  run-Finishes :
      (e : RazorpayStoredEvent) (s : Reconstruction)
      → lookup e.event_id s.events ≡ some e
      → is_pending e.processing_status ≡ true
      → IsKeyed s
      → Finishes e.event_id s (process_event p c client m (suc fuel) e.event_id s)
  run-Finishes e s l w keyed =
      let (s', st, n, r, t, lt, le, h) =
        process_event-Settles p c client m (suc fuel) e s l w (omega arith) in
      let e' = record e { processing_status = st; processing_attempts = n } in
      (s', r, replaced-IsKeyed e e' s s' refl t h keyed, replaced-Waits e e' s s' refl t h)

  process_event-Finishes :
      (id : ℕ) (s : Reconstruction)
      → IsKeyed s
      → Finishes id s (process_event p c client m (suc fuel) id s)
  process_event-Finishes id s keyed = elim (Option-cases (lookup id s.events)) [
    | inl l ↦ (
      s,
      process_event_absent p c client m fuel id s l,
      keyed,
      elsewhere id s (Waits-absent id s l),
    )
    | inr (e, l) ↦ elim (Bool-cases (is_pending e.processing_status)) [
      | inl w ↦
          let k = keyed id e l in
          subst (λ i. Finishes i s (process_event p c client m (suc fuel) i s)) k
            (run-Finishes e s (subst (λ i. lookup i s.events ≡ some e) (sym k) l) w keyed)
      | inr w ↦ (
        s,
        process_event_idle p c client m fuel id s e l w,
        keyed,
        elsewhere id s (Waits-here id s e l w),
      )
    ]
  ]

  process_each-drains :
      (ids : List ℕ) (s : Reconstruction)
      → IsKeyed s
      → Covers ids s
      → (s' : Reconstruction) × (process_each p c client m (suc fuel) ids s ≡ (ok true, s'))
        × ((j : ℕ) → ¬ Waits j s')
  unfolding process_each
  process_each-drains [] s keyed all = (s, refl, λ j w. Memᴰ.not-nil (all j w))
  process_each-drains (id ∷ ids) s keyed all =
      let (s₁, r, keyed₁, only) = process_event-Finishes id s keyed in
      let (s₂, r₂, none_waits) = process_each-drains ids s₁ keyed₁ (λ j w.
        elim (Memᴰ.cases_cons (all j (only j w).1)) [
          | inl e ↦ elim ((only j w).0 (sym e)) [ ]
          | inr in_rest ↦ in_rest
        ]) in
      (
        s₂,
        bind_ok (process_event p c client m (suc fuel) id)
              (λ x. process_each p c client m (suc fuel) ids >>= λ rest. pure (x && rest)) s s₁ true
              r
            ∙ bind_ok (process_each p c client m (suc fuel) ids) (λ x. pure (true && x)) s₁ s₂ true
                r₂,
        none_waits,
      )

-- A waiting event is listed.
pending_ids-lists :
    (j : ℕ) (e : RazorpayStoredEvent) (d : Dict RazorpayStoredEvent)
    → lookup j d ≡ some e
    → is_pending e.processing_status ≡ true
    → Memᴰ j (pending_ids d)
unfolding pending_ids lookup
pending_ids-lists j e [] l w = ground arith
pending_ids-lists j e ((k, x) ∷ d) l w = elim (Bool-cases (is_pending x.processing_status)) [
  | inl now ↦ elim (Bool-cases (k == j)) [
    | inl here ↦ rw now (Memᴰ.head (ground arith))
    | inr there ↦ rw now (Memᴰ.tail (pending_ids-lists j e d (rw there at l) w))
  ]
  | inr idle ↦ rw idle (pending_ids-lists j e d (ground arith) w)
]

pending_ids-Covers : (s : Reconstruction) → Covers (pending_ids s.events) s
pending_ids-Covers s j (e, l, w) = pending_ids-lists j e s.events l w

module _ (p : Platform) (c : Codec) (client : Client) (m fuel limit stale : ℕ) (s : Reconstruction)
    (enough : m ≤ fuel) (keyed : IsKeyed s) (small : length (pending_ids s.events) ≤ limit) where
  -- From a store whose events are filed under their own numbers, `process_pending` with a limit
  -- that covers the waiting events and rounds for more than `max_attempts` attempts returns
  -- their number, and afterwards no event waits, whatever the provider answers or raises at any
  -- attempt.
  pub process_pending_drains :
      (s' : Reconstruction) × (process_pending p c client m (suc fuel) limit stale s
        ≡ (ok (length (pending_ids s.events), true), s'))
      × ((j : ℕ) (e : RazorpayStoredEvent)
          → lookup j s'.events ≡ some e
          → is_pending e.processing_status ≡ false)
  unfolding process_pending recover_stale_processing pending_event_ids
  process_pending_drains = rw (take_all limit (pending_ids s.events) small) (
      let (s', r, idle) =
        process_each-drains p c client m fuel (omega arith) (pending_ids s.events) s keyed
          (pending_ids-Covers s) in
      (
        s',
        bind_ok (process_each p c client m (suc fuel) (pending_ids s.events))
            (λ done. pure (length (pending_ids s.events), done)) s s' true r,
        λ j e l. elim (Bool-cases (is_pending e.processing_status)) [
          | inl w ↦ elim (idle j (e, l, w)) [ ]
          | inr w ↦ w
        ],
      ))
