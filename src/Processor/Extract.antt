-- ===== src/Processor/Extract.antt =====
-- Which entity an event is about: the `extract_…` functions of src/razortrust/razorpay_processor.py.
use text.Mathlib.Text.{starts_with}
use razor_trust.Common.{String, Bool, false, Option, none, some, str_eq, if◌then◌else◌}
use razor_trust.Processor.Json.{Json, object, string, get}
use razor_trust.Processor.Records.{RazorpayStoredEvent}

-- A text with the prefix.
abbrev pub text_with : String → Json → Option String
text_with prefix (string s) = if starts_with s prefix then some s else none
text_with prefix _ = none

-- `value.get(key)`, of a value that is a `dict`, as a text with the prefix
unfoldable pub member_with : (key prefix : String) → Json → Option String
member_with key prefix (object d) = text_with prefix (get key d)
member_with key prefix _ = none

-- `refs.get(entity_type)`, of a value that is a `dict`
abbrev pub child : String → Json → Json
child k (object d) = get k d
child k _ = Json.null

abbrev pub is_text : String → Json → Bool
is_text t (string s) = str_eq s t
is_text t _ = false

abbrev pub or_next : Option String → Option String → Option String
or_next none b = b
or_next (some a) b = some a

-- `refs[entity_type].id`
abbrev pub referred : (entity_type prefix : String) → RazorpayStoredEvent → Option String
referred entity_type prefix e =
    member_with "id" prefix (child entity_type (get "entity_refs" e.summary))

-- `primary.id`, where the primary entity has the type
abbrev pub primary : (entity_type prefix : String) → RazorpayStoredEvent → Option String
primary entity_type prefix e =
    if is_text entity_type (get "primary_entity_type" e.summary)
    then member_with "id" prefix (get "primary_entity" e.summary)
    else none

-- `_extract_entity_id`
unfoldable pub extract_entity_id :
    (entity_type prefix : String) → RazorpayStoredEvent → Option String
extract_entity_id entity_type prefix e =
    or_next (referred entity_type prefix e) (primary entity_type prefix e)

unfoldable pub extract_payment_id : RazorpayStoredEvent → Option String
unfolding extract_entity_id
extract_payment_id e =
    or_next (extract_entity_id "payment" "pay_" e)
      (member_with "payment_id" "pay_" (get "primary_entity" e.summary))

unfoldable pub extract_refund_id : RazorpayStoredEvent → Option String
unfolding extract_entity_id
extract_refund_id e = extract_entity_id "refund" "rfnd_" e

unfoldable pub extract_settlement_id : RazorpayStoredEvent → Option String
unfolding extract_entity_id
extract_settlement_id e = extract_entity_id "settlement" "setl_" e

unfoldable pub extract_dispute_id : RazorpayStoredEvent → Option String
unfolding extract_entity_id
extract_dispute_id e = extract_entity_id "dispute" "disp_" e
