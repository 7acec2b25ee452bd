-- ===== src/Webhook/Once.antt =====
-- A webhook event is stored once.
use razor_trust.Common.Table.{entry_at-put_entry, put_entry, entry_at}
use razor_trust.Processor.Records.{RazorpayStoredEvent}
use razor_trust.Webhook.Ingest.{stored_event, event_time, store_new, store_event, EventStore}
use razor_trust.Processor.Json.{Fields}
use razor_trust.Webhook.Summary.{RazorpayWebhookEnvelope}
use razor_trust.Processor.Read.{Codec}
use razor_trust.Common.{
  ℕ, String, ◌≡◌, refl, sym, ap, ◌∙◌, inl, inr, Bool, true, false, Option, none, some, arith,
  eq_iff,
}
use razor_trust.Common.Exec.{ok_injective, Result, ok, Result-cases}

module _ (c c' : Codec) (fresh fresh' : ℕ) (id : String)
    (envelope envelope' : RazorpayWebhookEnvelope) (sha sha' : String) (summary summary' : Fields)
    (at at' : ℕ) (d d' : EventStore) (e : RazorpayStoredEvent) (new : Bool) where
  -- What a returned result says.
  returned :
      (v : RazorpayStoredEvent × Bool) (s : EventStore)
      → ◌≡◌ {A = Result (RazorpayStoredEvent × Bool) × EventStore} (ok v, s) (ok (e, new), d')
      → entry_at id s ≡ some v.0
      → entry_at id d' ≡ some e
  returned v s h l =
      ap (entry_at id) (sym (ap (λ r. r.1) h))
      ∙ l
      ∙ ap (λ q. some q.0) (ok_injective (ap (λ r. r.0) h))

  -- The event is there afterwards.
  stored :
      (r : Option RazorpayStoredEvent)
      → entry_at id d ≡ r
      → store_new c fresh id envelope sha summary at r d ≡ (ok (e, new), d')
      → entry_at id d' ≡ some e
  stored (some x) l h = returned (x, false) d h l
  stored none l h = elim (Result-cases (event_time c envelope.created_at)) [
    | inl (t, p) ↦
        returned (stored_event fresh id envelope sha summary at t, true)
          (put_entry id (stored_event fresh id envelope sha summary at t) d) (rw p at h)
          (rw entry_at-put_entry (rw ((eq_iff id id).1 refl) refl))
    | inr (x, p) ↦ ground (arith, rw p at h)
  ]

  -- After a webhook event was stored or found, another delivery with the same provider event id,
  -- whatever its contents, returns the same event, flagged as not new, and writes nothing.
  pub store_event_again :
      store_event c fresh id envelope sha summary at d ≡ (ok (e, new), d')
      → store_event c' fresh' id envelope' sha' summary' at' d' ≡ (ok (e, false), d')
  unfolding store_event
  store_event_again h = rw (stored _ refl h) refl
