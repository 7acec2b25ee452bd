-- ===== src/Tests/Payments.antt =====
-- The theorem about holds for payments, on a payment that is refunded after its hold was created.
use razor_trust.Repository.Cases
use razor_trust.Audit.{append, records}
use razor_trust.Audit.Hex.{from_hex}
use razor_trust.Audit.{hash_event}
use razor_trust.Database.Queries.{first_where}
use razor_trust.Workflow.{create_hold}
use razor_trust.PaymentCases.{get_candidate}
use razor_trust.Common.Dict.{lookup}
use razor_trust.PaymentCases.{
  receipt_of, candidate_of, create_or_get, PaymentCandidate, ProcessorPaymentRow,
  PaymentCaseReceipt,
}
use razor_trust.PaymentCases.Once.{create_or_get_again}
use razor_trust.Audit.{genesis_hash, Hashing}
use razor_trust.Workflow.State.{World, Payload}
use razor_trust.Tests.Fixtures.{naturals}
use razor_trust.Repository.Cases.{new_case}
use razor_trust.Repository.State.{empty}
use razor_trust.Common.{ℕ, String, ◌≡◌, refl, true, false, none, some, [], ◌∷◌}
use razor_trust.Common.Exec.{ok}
use razor_trust.Common.Dict.{lookup}
use razor_trust.Domain.{HoldCase, HoldCreate}

-- A toy digest: 64 zeros.
abbrev payload_digests : Hashing (Payload ℕ)
payload_digests = record { canonical = λ e h. h; sha256_hex = λ m. genesis_hash }

abbrev plain_text : String → String
plain_text s = s

abbrev key_of : String → ℕ
key_of s = 42

abbrev captured_payment : ProcessorPaymentRow
captured_payment = record {
  payment_id = "pay_1";
  account_id = some "acc_1";
  order_id = some "order_1";
  amount = 1000;
  currency = "INR";
  status = "captured";
  method = none;
  captured = true;
  amount_refunded = 0;
  refund_status = none;
  provider_created_at = some 900;
  source_event_created_at = none;
  authoritative_sha256 = "digest";
  updated_at = 950;
}

abbrev refunded_payment : ProcessorPaymentRow
refunded_payment = record captured_payment {
  status = "refunded";
  amount_refunded = 1000;
  updated_at = 2000;
}

abbrev captured_candidate : PaymentCandidate
captured_candidate = candidate_of plain_text plain_text plain_text captured_payment

abbrev refunded_candidate : PaymentCandidate
refunded_candidate = candidate_of plain_text plain_text plain_text refunded_payment

abbrev payment_request : HoldCreate
payment_request = record {
  request_id = 42;
  merchant_id = "acc_1";
  source_event_id = "pay_1";
  triggered_at = 900;
  reason_code = some captured_candidate.reason_code;
}

abbrev payment_hold : HoldCase
payment_hold = new_case payment_request 7 1001 1002

abbrev first_receipt : PaymentCaseReceipt
first_receipt = receipt_of captured_candidate 42 (payment_hold, true)

abbrev no_holds : World ℕ
no_holds = record { repository = empty; ledger = [] }

abbrev with_payment_hold : World ℕ
with_payment_hold =
    (create_or_get naturals payload_digests plain_text plain_text plain_text key_of
      (captured_payment ∷ []) "pay_1" 7 1001 1002 21 1003 no_holds).1

create_or_get_again_example :
    create_or_get naturals payload_digests plain_text plain_text plain_text key_of
      (refunded_payment ∷ [])
      "pay_1"
      8
      2001
      2002
      22
      2003
      with_payment_hold
    ≡ (
      ok (record {
        payment = refunded_candidate;
        hold = payment_hold;
        is_new = false;
        idempotency_key = 42;
      }),
      with_payment_hold,
    )
unfolding create_or_get get_candidate first_where create_hold Cases.create lookup append records
    hash_event from_hex
create_or_get_again_example =
    create_or_get_again naturals payload_digests plain_text plain_text plain_text key_of
      (captured_payment ∷ []) (refunded_payment ∷ []) "pay_1" 7 1001 1002 21 1003 8 2001 2002 22
      2003 no_holds with_payment_hold first_receipt refunded_candidate refl refl refl
