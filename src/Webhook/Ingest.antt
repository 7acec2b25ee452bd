-- ===== src/Webhook/Ingest.antt =====
-- `InMemoryRazorpayEventStore` and `verify_webhook_signature`.
use mathlib.Core.Option
use razor_trust.Processor.Json.{Fields}
use razor_trust.Webhook.Summary.{RazorpayWebhookEnvelope}
use razor_trust.Common.Table.{put_entry, entry_at, Table}
use razor_trust.Processor.Records.{received, RazorpayStoredEvent}
use razor_trust.Processor.Read.{Codec}
use razor_trust.Common.{
  ℕ, String, Bool, true, false, not, ◌&&◌, Option, none, some, List, [], ◌∷◌, str_eq, ltb,
  if◌then◌else◌, length,
}
use razor_trust.Common.Exec.{Result, ok, and_then, Exec, pure, lift, gets, modify, ◌>>=◌, ◌>>◌}

pub record RazorpayIngestionStats : Type 0 where
  pub total_events : ℕ
  pub last_event_at : Option ℕ
  pub last_event_type : Option String

-- `_events`, by `provider_event_id`
abbrev pub EventStore : Type 0
EventStore = Table RazorpayStoredEvent

abbrev pub event_time : Codec → Option ℕ → Result (Option ℕ)
event_time c none = ok none
event_time c (some t) = and_then (c.from_timestamp t) λ at. ok (some at)

abbrev pub stored_event :
    (fresh : ℕ) (provider_event_id : String)
    → RazorpayWebhookEnvelope
    → (payload_sha256 : String) → Fields
    → (received_at : ℕ) (event_created_at : Option ℕ) → RazorpayStoredEvent
stored_event fresh provider_event_id envelope payload_sha256 summary received_at event_created_at =
    record {
      event_id = fresh;
      provider_event_id = provider_event_id;
      event_type = envelope.event;
      account_id = envelope.account_id;
      event_created_at = event_created_at;
      payload_sha256 = payload_sha256;
      summary = summary;
      received_at = received_at;
      processing_status = received;
      processing_attempts = 0;
    }

module _ (c : Codec) (fresh : ℕ) (provider_event_id : String) (envelope : RazorpayWebhookEnvelope)
    (payload_sha256 : String) (summary : Fields) (received_at : ℕ) where
  abbrev pub store_new : Option RazorpayStoredEvent → Exec EventStore (RazorpayStoredEvent × Bool)
  store_new (some existing) = pure (existing, false)
  store_new none = do
    created ← lift (event_time c envelope.created_at)
    let e =
          stored_event fresh provider_event_id envelope payload_sha256 summary received_at
            created in
        modify (put_entry provider_event_id e) >> pure (e, true)

  unfoldable pub store_event : Exec EventStore (RazorpayStoredEvent × Bool)
  store_event = do existing ← gets (entry_at provider_event_id); store_new existing

-- `max(…, key=received_at)`: of equal times the first
unfoldable pub newest_event : EventStore → Option RazorpayStoredEvent
newest_event [] = none
newest_event ((k, e) ∷ d) = elim (newest_event d) [
  | none ↦ some e
  | some x ↦ some (if ltb e.received_at x.received_at then x else e)
]

unfoldable pub ingestion_stats : Exec EventStore RazorpayIngestionStats
ingestion_stats = gets λ d. record {
  total_events = length d;
  last_event_at = Option.map (λ e. e.received_at) (newest_event d);
  last_event_type = Option.map (λ e. e.event_type) (newest_event d);
}

-- HMAC-SHA256 of the body under a secret, in hexadecimal, and `str.strip`, which are libraries; a body
-- is the list of its bytes.
unfoldable pub verify_webhook_signature :
    (hmac : String → List ℕ → String) (strip : String → String)
    → List ℕ
    → (signature secret : String) → Bool
verify_webhook_signature hmac strip [] signature secret = false
verify_webhook_signature hmac strip (b ∷ body) signature secret =
    not (str_eq signature "")
    && not (str_eq secret "")
    && str_eq (hmac secret (b ∷ body)) (strip signature)
