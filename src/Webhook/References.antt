-- ===== src/Webhook/References.antt =====
-- The summary of an event keeps what `extract_payment_id` looks for.
use text.Mathlib.Text.{starts_with}
use razor_trust.Processor.Records.{RazorpayStoredEvent}
use razor_trust.Processor.Extract.{member_with, extract_entity_id, extract_payment_id}
use razor_trust.Processor.Read.{is_short}
use razor_trust.Webhook.Summary.{
  build_event_summary, RazorpayWebhookEnvelope, primary_entity, reference_keys, entity_in,
  entity_refs, unless_empty, keys, references, has_name, first_entity, except,
}
use razor_trust.Processor.Json.{get, get_or, end, field, string, object, Fields}
use mathlib.Core.Path.{subst}
use mathlib.Core.List.{Memᴰ}
use mathlib.Core.List.Memᴰ
use razor_trust.Common.{
  String, ◌≡◌, refl, sym, ◌∙◌, inl, inr, true, false, some, List, [], ◌∷◌, ◌++◌, arith, str_eq,
  eq_iff, Bool-cases, Option-cases,
}

-- An entity at a name of the payload.
abbrev pub EntityAt : String → Fields → Fields → Type 0
EntityAt k payload entity = entity_in (get k payload) ≡ some entity

-- Some name that has an entity is found.
first_entity-some :
    (k : String) (ks : List String) (payload entity : Fields)
    → Memᴰ k ks
    → EntityAt k payload entity
    → (r : String × Fields) × (first_entity ks payload ≡ some r)
unfolding first_entity
first_entity-some k [] payload entity m h = elim (Memᴰ.not-nil m) [ ]
first_entity-some k (j ∷ ks) payload entity m h = elim (Option-cases (entity_in (get j payload))) [
  | inr (x, e) ↦ rw (first_entity, e) (_, refl)
  | inl e ↦ elim (Memᴰ.cases_cons m) [
    | inl same ↦ ground (arith, subst (λ i. EntityAt i payload entity) same h, e)
    | inr in_rest ↦ rw (first_entity, e) (first_entity-some k ks payload entity in_rest h)
  ]
]

-- A name with an entity is a key.
keys-EntityAt :
    (k : String) (payload entity : Fields) → EntityAt k payload entity → Memᴰ k (keys payload)
unfolding keys get_or entity_in
keys-EntityAt k end entity h = ground arith
keys-EntityAt k (field j v d) entity h = elim (Bool-cases (str_eq j k)) [
  | inl same ↦ Memᴰ.head (sym ((eq_iff j k).0 same))
  | inr other ↦ Memᴰ.tail (keys-EntityAt k d entity (rw other at h))
]

has_name-lists : (k : String) (js : List String) → has_name k js ≡ true → Memᴰ k js
has_name-lists k [] h = ground arith
has_name-lists k (j ∷ js) h = elim (Bool-cases (str_eq j k)) [
  | inl same ↦ Memᴰ.head (sym ((eq_iff j k).0 same))
  | inr other ↦ Memᴰ.tail (has_name-lists k js (rw other at h))
]

-- Every name of the second list is in the first or among the rest.
candidates-all : (k : String) (seen ks : List String) → Memᴰ k ks → Memᴰ k (seen ++ except seen ks)
unfolding except
candidates-all k seen [] m = elim (Memᴰ.not-nil m) [ ]
candidates-all k seen (j ∷ js) m = elim (Bool-cases (has_name j seen)) [
  | inl b ↦ elim (Memᴰ.cases_cons m) [
    | inl e ↦ rw b (Memᴰ.append_left _ (Memᴰ.cast e (has_name-lists j seen b)))
    | inr in_rest ↦ rw b (candidates-all k seen js in_rest)
  ]
  | inr b ↦ elim (Memᴰ.cases_cons m) [
    | inl e ↦ rw b (Memᴰ.append_right seen (Memᴰ.head e))
    | inr in_rest ↦ rw b (elim (Memᴰ.append_cases seen (candidates-all k seen js in_rest)) [
      | inl left ↦ Memᴰ.append_left _ left
      | inr right ↦ Memᴰ.append_right seen (Memᴰ.tail right)
    ])
  ]
]

-- Another name's references are passed over.
get-unless_empty :
    (k j : String) (refs rest : Fields)
    → str_eq j k ≡ false
    → get k (unless_empty j refs rest) ≡ get k rest
unfolding get_or
get-unless_empty k j end rest h = refl
get-unless_empty k j (field i v d) rest h = rw h refl

get-references :
    (entity : Fields) (s : String)
    → get "id" entity ≡ string s
    → is_short s ≡ true
    → (d : Fields) × (references reference_keys entity ≡ field "id" (string s) d)
unfolding references
get-references entity s i short = rw i (rw short (_, refl))

-- The references of an entity.
references-id :
    (payload entity : Fields) (s : String)
    → EntityAt "payment" payload entity
    → get "id" entity ≡ string s
    → is_short s ≡ true
    → (refs : Fields) × (get "payment" (entity_refs payload) ≡ object refs)
      × (get "id" refs ≡ string s)
unfolding entity_refs get_or entity_in
references-id end entity s h i short = ground arith
references-id (field j v d) entity s h i short = elim (Bool-cases (str_eq j "payment")) [
  | inl same ↦
      let (refs, r) = get-references entity s i short in
      rw (rw same at h) (rw r (rw same (_, refl, refl)))
  | inr other ↦
      let (refs, p, q) = references-id d entity s (rw other at h) i short in
      (refs, get-unless_empty "payment" j _ (entity_refs d) other ∙ p, q)
]

-- A payload with an entity has a primary one.
primary_entity-some :
    (x : RazorpayWebhookEnvelope) (k : String) (entity : Fields)
    → EntityAt k x.payload entity
    → (r : String × Fields) × (primary_entity x ≡ some r)
unfolding primary_entity
primary_entity-some x k entity h =
    first_entity-some k _ x.payload entity
      (candidates-all k x.contains (keys x.payload) (keys-EntityAt k x.payload entity h)) h

-- References that are not empty are in the summary.
get-refs :
    (d refs : Fields)
    → get "payment" d ≡ object refs
    → get "entity_refs" (unless_empty "entity_refs" d end) ≡ object d
unfolding get_or
get-refs end refs a = ground arith
get-refs (field k v d) refs a = refl

get-build_event_summary :
    (x : RazorpayWebhookEnvelope) (r : String × Fields) (refs : Fields)
    → primary_entity x ≡ some r
    → get "payment" (entity_refs x.payload) ≡ object refs
    → get "entity_refs" (build_event_summary x) ≡ object (entity_refs x.payload)
unfolding build_event_summary get_or
get-build_event_summary x r refs found a = rw found (get-refs (entity_refs x.payload) refs a)

-- The summary of a webhook keeps what the processor needs: if the payload has a payment entity
-- whose id is a text of 1 to 128 characters that starts with pay_, then `extract_payment_id`
-- finds that id in an event stored with the summary, whatever the webhook lists as contained.
pub extract-build_event_summary :
    (x : RazorpayWebhookEnvelope) (entity : Fields) (s : String) (e : RazorpayStoredEvent)
    → EntityAt "payment" x.payload entity
    → get "id" entity ≡ string s
    → is_short s ≡ true
    → starts_with s "pay_" ≡ true
    → e.summary ≡ build_event_summary x
    → extract_payment_id e ≡ some s
unfolding extract_payment_id extract_entity_id member_with
extract-build_event_summary x entity s e h i short p same =
    let (r, found) = primary_entity-some x "payment" entity h in
    let (refs, a, b) = references-id x.payload entity s h i short in
    rw same (rw (get-build_event_summary x r refs found a) (rw a (rw b (rw p refl))))
