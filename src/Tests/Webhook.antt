-- ===== src/Tests/Webhook.antt =====
-- The theorems about webhook events, on one envelope.
use razor_trust.Webhook.References.{extract-build_event_summary}
use razor_trust.Webhook.Once.{store_event_again}
use razor_trust.Processor.Extract.{extract_payment_id}
use razor_trust.Common.Table.{put_entry, entry_at}
use razor_trust.Processor.Read.{Codec}
use razor_trust.Processor.Json.{integer, end, string, object, field, get_or, Fields}
use razor_trust.Webhook.Ingest.{stored_event, store_event}
use razor_trust.Processor.Records.{RazorpayStoredEvent}
use razor_trust.Webhook.Summary.{build_event_summary, RazorpayWebhookEnvelope, entity_in}
use razor_trust.Common.{◌*◌, ◌≡◌, refl, true, false, some, [], ◌∷◌}
use razor_trust.Common.Exec.{ok}

abbrev plain : Codec
plain = record { from_timestamp = λ t. ok (t * 1000000); hash_safe = λ d. "digest" }

-- A payment with a contact, which the summary leaves out.
abbrev payment_entity : Fields
payment_entity =
    field "id" (string "pay_1")
      (field "contact" (string "+910000000000") (field "amount" (integer 500) end))

abbrev envelope : RazorpayWebhookEnvelope
envelope = record {
  account_id = some "acc_1";
  event = "payment.captured";
  contains = "payment" ∷ [];
  created_at = some 900;
  payload = field "payment" (object (field "entity" (object payment_entity) end)) end;
}

abbrev arrived : RazorpayStoredEvent
arrived = stored_event 5 "evt_1" envelope "sha" (build_event_summary envelope) 1000 (some 900000000)

extract-build_event_summary_example : extract_payment_id arrived ≡ some "pay_1"
unfolding entity_in get_or
extract-build_event_summary_example =
    extract-build_event_summary envelope payment_entity "pay_1" arrived refl refl refl refl refl

first_store :
    store_event plain 5 "evt_1" envelope "sha" (build_event_summary envelope) 1000 []
    ≡ (ok (arrived, true), ("evt_1", arrived) ∷ [])
unfolding store_event entry_at put_entry
first_store = refl

store_event_again_example :
    store_event plain 6 "evt_1" envelope "sha"
      (build_event_summary envelope)
      2000
      (("evt_1", arrived) ∷ [])
    ≡ (ok (arrived, false), ("evt_1", arrived) ∷ [])
store_event_again_example =
    store_event_again plain plain 5 6 "evt_1" envelope envelope "sha" "sha"
      (build_event_summary envelope) (build_event_summary envelope) 1000 2000 []
      (("evt_1", arrived) ∷ []) arrived true first_store
