-- ===== src/Webhook/Summary.antt =====
-- `RazorpayWebhookEnvelope`, `_primary_entity` and `build_event_summary`.
use razor_trust.Processor.Read.{is_short}
use razor_trust.Processor.Json.{
  array, item, integer, object, nil, get, field, string, null, end, Items, Json, Fields,
}
use razor_trust.Common.{
  ℕ, String, Bool, false, ◌||◌, Option, none, some, List, [], ◌∷◌, ◌++◌, str_eq, if◌then◌else◌,
}

-- An envelope that its validators accepted.
pub record RazorpayWebhookEnvelope : Type 0 where
  pub account_id : Option String
  pub event : String
  pub contains : List String
  pub created_at : Option ℕ
  pub payload : Fields

-- `list(d)`
unfoldable pub keys : Fields → List String
keys end = []
keys (field k v d) = k ∷ keys d

abbrev pub has_name : String → List String → Bool
has_name k [] = false
has_name k (j ∷ js) = str_eq j k || has_name k js

-- The names of a list that another does not have.
unfoldable pub except : List String → List String → List String
except seen [] = []
except seen (k ∷ ks) = let rest = except seen ks in if has_name k seen then rest else k ∷ rest

-- `wrapped.get("entity")`, where `wrapped` and it are `dict`s
abbrev pub as_fields : Json → Option Fields
as_fields (object d) = some d
as_fields _ = none

unfoldable pub entity_in : Json → Option Fields
entity_in (object wrapped) = as_fields (get "entity" wrapped)
entity_in _ = none

-- The loop of `_primary_entity`
unfoldable pub first_entity : List String → Fields → Option (String × Fields)
first_entity [] payload = none
first_entity (k ∷ ks) payload = elim (entity_in (get k payload)) [
  | some e ↦ some (k, e)
  | none ↦ first_entity ks payload
]

unfoldable pub primary_entity : RazorpayWebhookEnvelope → Option (String × Fields)
primary_entity x = first_entity (x.contains ++ except x.contains (keys x.payload)) x.payload

-- `{key: d.get(key) for key in names if key in d}`
unfoldable pub pick_present : List String → Fields → Fields
pick_present [] d = end
pick_present (k ∷ ks) d =
    let rest = pick_present ks d in if has_name k (keys d) then field k (get k d) rest else rest

abbrev pub safe_keys : List String
safe_keys =
    "id" ∷ "entity" ∷ "amount" ∷ "base_amount" ∷ "currency" ∷ "status" ∷ "method" ∷ "order_id"
    ∷ "payment_id" ∷ "captured" ∷ "amount_refunded" ∷ "refund_status" ∷ "international"
    ∷ "created_at" ∷ "settlement_id" ∷ "dispute_id" ∷ "fees" ∷ "tax" ∷ "utr" ∷ "amount_deducted"
    ∷ "reason_code" ∷ "respond_by" ∷ "phase" ∷ "speed_processed" ∷ "speed_requested" ∷ []

abbrev pub reference_keys : List String
reference_keys = "id" ∷ "payment_id" ∷ "order_id" ∷ "settlement_id" ∷ "dispute_id" ∷ []

abbrev pub is_reference : Json → Bool
is_reference (string s) = is_short s
is_reference _ = false

-- `refs`
unfoldable pub references : List String → Fields → Fields
references [] entity = end
references (k ∷ ks) entity =
    let rest = references ks entity in
    if is_reference (get k entity) then field k (get k entity) rest else rest

abbrev pub unless_empty : String → Fields → Fields → Fields
unless_empty k end rest = rest
unless_empty k (field j v d) rest = field k (object (field j v d)) rest

abbrev pub references_in : Option Fields → Fields
references_in none = end
references_in (some entity) = references reference_keys entity

-- `entity_refs`
unfoldable pub entity_refs : Fields → Fields
entity_refs end = end
entity_refs (field k wrapped d) = unless_empty k (references_in (entity_in wrapped)) (entity_refs d)

abbrev pub text_or_null : Option String → Json
text_or_null none = null
text_or_null (some s) = string s

abbrev pub number_or_null : Option ℕ → Json
number_or_null none = null
number_or_null (some n) = integer n

abbrev pub texts : List String → Items
texts [] = nil
texts (s ∷ ss) = item (string s) (texts ss)

-- What stands behind the first four keys.
abbrev pub entity_part : Fields → Option (String × Fields) → Fields
entity_part payload none = end
entity_part payload (some (primary_type, entity)) =
    field "primary_entity_type" (string primary_type) (
      field "primary_entity" (object (pick_present safe_keys entity))
        (unless_empty "entity_refs" (entity_refs payload) end))

unfoldable pub build_event_summary : RazorpayWebhookEnvelope → Fields
build_event_summary x = field "account_id" (text_or_null x.account_id) (
    field "event" (string x.event) (
      field "contains" (array (texts x.contains)) (
        field "created_at" (number_or_null x.created_at)
          (entity_part x.payload (primary_entity x)))))
