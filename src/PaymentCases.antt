-- ===== src/PaymentCases.antt =====
-- Holds for payments: src/razortrust/payment_case_bridge.py, over the table of payments of
-- src/razortrust/razorpay_store.py.
pub mod Once
use Prim.Native.String.{count, ◌++◌ as str_append}
use razor_trust.Common.Exec.{validation_error}
use razor_trust.Checkout.Store.{lookup_error}
use razor_trust.Database.Queries.{first_where}
use razor_trust.Timeline.Latest.{sort_by}
use razor_trust.Workflow.{create_hold}
use razor_trust.Workflow.State.{World, Payload}
use razor_trust.Audit.{Hashing}
use razor_trust.Domain.{HoldCreate, HoldCase}
use razor_trust.Common.{
  ℕ, String, Bool, not, ◌&&◌, ◌||◌, Option, none, some, List, map, str_eq, ltb, leb, ◌==◌,
  if◌then◌else◌, take,
}
use razor_trust.Common.Exec.{Result, ok, err, Exec, pure, lift, ◌>>=◌, value_error}
use razor_trust.Common.Platform.{Platform}

-- The columns that the reader selects, of the payments of the provider
pub record ProcessorPaymentRow : Type 0 where
  pub payment_id : String
  pub account_id : Option String
  pub order_id : Option String
  pub amount : ℕ
  pub currency : String
  pub status : String
  pub method : Option String
  pub captured : Bool
  pub amount_refunded : ℕ
  pub refund_status : Option String
  pub provider_created_at : Option ℕ
  pub source_event_created_at : Option ℕ
  pub authoritative_sha256 : String
  pub updated_at : ℕ

pub record PaymentCandidate : Type 0 where
  pub payment_id : String
  pub account_id : String
  pub order_id : Option String
  pub amount : ℕ
  pub currency : String
  pub status : String
  pub method : Option String
  pub captured : Bool
  pub amount_refunded : ℕ
  pub refund_status : Option String
  pub provider_created_at : Option ℕ
  pub source_event_created_at : Option ℕ
  pub updated_at : ℕ
  pub decision_time : ℕ
  pub reason_code : String
  pub authoritative_store_backed : Bool
  pub authoritative_sha256 : Option String

pub record PaymentCaseReceipt : Type 0 where
  pub payment : PaymentCandidate
  pub hold : HoldCase
  pub is_new : Bool
  pub idempotency_key : ℕ

-- `str(value)` of a column that may be null
abbrev pub text_or_none : Option String → String
text_or_none none = "None"
text_or_none (some s) = s

abbrev pub map_option : (String → String) → Option String → Option String
map_option f none = none
map_option f (some s) = some (f s)

-- A text, where it is not empty
abbrev pub unless_blank : Option String → Option String
unless_blank none = none
unless_blank (some s) = if str_eq s "" then none else some s

-- `lower` and `strip` are the methods of `str`.
unfoldable pub payment_reason_code :
    (lower strip : String → String) (status : String) (amount_refunded : ℕ) → String
payment_reason_code lower strip status amount_refunded =
    let normalized = lower (strip status) in
    if ltb 0 amount_refunded || str_eq normalized "refunded"
    then "RAZORPAY_REFUND_OBSERVED"
    else if str_eq normalized "failed"
    then "RAZORPAY_PAYMENT_FAILED"
    else if str_eq normalized "captured"
    then "RAZORPAY_PAYMENT_CAPTURED"
    else if str_eq normalized "authorized"
    then "RAZORPAY_PAYMENT_AUTHORIZED"
    else "RAZORPAY_PAYMENT_OBSERVED"

-- The first of three times; the last column is never null, so the function raises nothing.
abbrev pub payment_decision_time : ProcessorPaymentRow → ℕ
payment_decision_time r = elim r.source_event_created_at [
  | some t ↦ t
  | none ↦ elim r.provider_created_at [ some t ↦ t | none ↦ r.updated_at ]
]

-- The model strips every text, as `StrictModel` does: `trim` is the stripping of Pydantic. The texts of
-- a reason have no white space at their ends.
abbrev pub candidate_of :
    (lower strip trim : String → String) → ProcessorPaymentRow → PaymentCandidate
candidate_of lower strip trim r = record {
  payment_id = trim r.payment_id;
  account_id = trim (text_or_none r.account_id);
  order_id = map_option trim (unless_blank r.order_id);
  amount = r.amount;
  currency = trim r.currency;
  status = trim r.status;
  method = map_option trim (unless_blank r.method);
  captured = r.captured;
  amount_refunded = r.amount_refunded;
  refund_status = map_option trim (unless_blank r.refund_status);
  provider_created_at = r.provider_created_at;
  source_event_created_at = r.source_event_created_at;
  updated_at = r.updated_at;
  decision_time = payment_decision_time r;
  reason_code = payment_reason_code lower strip r.status r.amount_refunded;
  authoritative_store_backed = not (str_eq r.authoritative_sha256 "");
  authoritative_sha256 = map_option trim (unless_blank (some r.authoritative_sha256));
}

unfoldable pub list_candidates :
    (lower strip trim : String → String)
    → List ProcessorPaymentRow
    → (limit : ℕ) → Result (List PaymentCandidate)
list_candidates lower strip trim payments limit =
    if limit == 0 || ltb 500 limit
    then err value_error
    else ok (
        map (candidate_of lower strip trim) (
          take limit
            (sort_by (λ x y. leb (payment_decision_time y) (payment_decision_time x)) payments)))

abbrev pub find_payment : String → List ProcessorPaymentRow → Option ProcessorPaymentRow
find_payment payment_id = first_where (λ r. str_eq r.payment_id payment_id)

unfoldable pub get_candidate :
    (lower strip trim : String → String)
    → List ProcessorPaymentRow
    → (payment_id : String) → Result PaymentCandidate
get_candidate lower strip trim payments payment_id = elim (find_payment payment_id payments) [
  | none ↦ err lookup_error
  | some r ↦ ok (candidate_of lower strip trim r)
]

-- `uuid5(NAMESPACE_URL, material)`
abbrev pub payment_case_request_id : (uuid5 : String → ℕ) (account_id payment_id : String) → ℕ
payment_case_request_id uuid5 account_id payment_id =
    uuid5 (
      str_append "razortrust:razorpay-payment:" (str_append account_id (str_append ":" payment_id)))

-- 1 to 128 characters
abbrev pub is_identifier : String → Bool
is_identifier s = not (str_eq s "") && leb (count s) 128

-- `HoldCreate(…)`, which strips both identifiers before it looks at their lengths. A reason is one of the
-- five of `payment_reason_code`, none of which is longer than 128 characters.
abbrev pub hold_request :
    (trim : String → String) (uuid5 : String → ℕ) → PaymentCandidate → Result HoldCreate
hold_request trim uuid5 k =
    if is_identifier (trim k.account_id) && is_identifier (trim k.payment_id)
    then ok (record {
      request_id = payment_case_request_id uuid5 k.account_id k.payment_id;
      merchant_id = trim k.account_id;
      source_event_id = trim k.payment_id;
      triggered_at = k.decision_time;
      reason_code = some k.reason_code;
    })
    else err validation_error

abbrev pub receipt_of : PaymentCandidate → (key : ℕ) → HoldCase × Bool → PaymentCaseReceipt
receipt_of k key (hold, new) = record {
  payment = k;
  hold = hold;
  is_new = new;
  idempotency_key = key;
}

module _ (p : Platform) (h : Hashing (Payload p.Float)) (lower strip trim : String → String)
    (uuid5 : String → ℕ) where
  -- The receipt of a hold that is created or found, and the request for it.
  abbrev pub hold_for :
      (fresh now now' id later : ℕ)
      → PaymentCandidate
      → HoldCreate
      → Exec (World p.Float) PaymentCaseReceipt
  hold_for fresh now now' id later k r = do
    result ← create_hold p h r fresh now now' id later
    pure (receipt_of k r.request_id result)

  abbrev pub case_for :
      (fresh now now' id later : ℕ) → PaymentCandidate → Exec (World p.Float) PaymentCaseReceipt
  case_for fresh now now' id later k = do
    r ← lift (hold_request trim uuid5 k)
    hold_for fresh now now' id later k r

  unfoldable pub create_or_get :
      List ProcessorPaymentRow
      → (payment_id : String) (fresh now now' id later : ℕ)
      → Exec (World p.Float) PaymentCaseReceipt
  create_or_get payments payment_id fresh now now' id later = do
    k ← lift (get_candidate lower strip trim payments payment_id)
    case_for fresh now now' id later k
