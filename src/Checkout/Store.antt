-- ===== src/Checkout/Store.antt =====
-- The sessions in `SqlCheckoutBridgeStore` (src/razortrust/checkout_bridge.py). A transaction that raises
-- writes nothing.
use text.Mathlib.Text.{starts_with}
use razor_trust.Processor.Extract.{is_text}
use razor_trust.Features.{hour}
use razor_trust.Checkout.Rules.{is_number}
use razor_trust.Database.Queries.{first_where}
use razor_trust.Checkout.Rows.{
  open_order, provider_order_failed, pending_provider_order, CheckoutOrderRow, CheckoutStore,
  TelemetryRow,
}
use razor_trust.Timeline.Quality.{five_minutes}
use razor_trust.Processor.Json.{get, integer, string, Json, Fields}
use razor_trust.Common.{
  is_some, str_eq, ℕ, ◌+◌, ◌*◌, String, Bool, false, not, ◌&&◌, Option, none, some, List, [], ◌∷◌,
  ◌++◌, ltb, ◌==◌, if◌then◌else◌,
}
use razor_trust.Common.Exec.{
  other_error, Exception, Result, ok, err, Exec, pure, lift, gets, or_raise, modify, raise_if,
  ◌>>=◌, ◌>>◌, value_error,
}

abbrev pub lookup_error : Exception
lookup_error = other_error "LookupError"

abbrev pub find_order : ℕ → CheckoutStore → Option CheckoutOrderRow
find_order id s = first_where (λ r. r.checkout_session_id == id) s.orders

abbrev pub find_telemetry : ℕ → CheckoutStore → Option TelemetryRow
find_telemetry id s = first_where (λ t. t.telemetry_id == id) s.telemetry

-- `razorpay_order_id == order_id`
abbrev pub is_order : String → CheckoutOrderRow → Bool
is_order order_id r = elim r.razorpay_order_id [ none ↦ false | some x ↦ str_eq x order_id ]

abbrev pub find_by_order : String → CheckoutStore → Option CheckoutOrderRow
find_by_order order_id s = first_where (is_order order_id) s.orders

-- `UPDATE` of the row with this key
unfoldable pub replace_order : CheckoutOrderRow → List CheckoutOrderRow → List CheckoutOrderRow
replace_order r [] = []
replace_order r (x ∷ xs) =
    let rest = replace_order r xs in
    if x.checkout_session_id == r.checkout_session_id then r ∷ rest else x ∷ rest

unfoldable pub replace_telemetry : TelemetryRow → List TelemetryRow → List TelemetryRow
replace_telemetry r [] = []
replace_telemetry r (x ∷ xs) =
    let rest = replace_telemetry r xs in
    if x.telemetry_id == r.telemetry_id then r ∷ rest else x ∷ rest

abbrev pub updated_order : CheckoutOrderRow → CheckoutStore → CheckoutStore
updated_order r s = record s { orders = replace_order r s.orders }

-- The commit of a new row, and of a changed row with the telemetry.
unfoldable pub insert_order : CheckoutOrderRow → Exec CheckoutStore CheckoutOrderRow
insert_order r = do modify λ s. record s { orders = s.orders ++ r ∷ [] }; pure r

unfoldable pub write_order :
    CheckoutOrderRow → (CheckoutStore → List TelemetryRow) → Exec CheckoutStore CheckoutOrderRow
write_order r telemetry = do
  modify λ s. record (updated_order r s) { telemetry = telemetry s }
  pure r

unfoldable pub get_session : ℕ → Exec CheckoutStore CheckoutOrderRow
get_session id = do or_raise (find_order id (← gets (λ s. s))) lookup_error

-- `client_event_at` is at most five minutes ahead.
abbrev pub is_too_early : Option ℕ → (now : ℕ) → Bool
is_too_early none now = false
is_too_early (some t) now = ltb (now + five_minutes) t

-- The arguments of `create_pending`, with the pseudonym already hashed.
pub record PendingOrder : Type 0 where
  pub account_id : String
  pub amount : ℕ
  pub currency : String
  pub device_fingerprint_sha256 : String
  pub customer_geo : String
  pub client_event_at : Option ℕ

abbrev pub pending_row : PendingOrder → (fresh : ℕ) (receipt : String) (now : ℕ) → CheckoutOrderRow
pending_row x fresh receipt now = record {
  checkout_session_id = fresh;
  account_id = x.account_id;
  razorpay_order_id = none;
  razorpay_payment_id = none;
  amount = x.amount;
  currency = x.currency;
  receipt = receipt;
  provider_status = "PENDING_PROVIDER_ORDER";
  provider_attempts = 0;
  lifecycle_status = pending_provider_order;
  last_payment_status = none;
  device_fingerprint_sha256 = x.device_fingerprint_sha256;
  customer_geo = x.customer_geo;
  client_event_at = x.client_event_at;
  telemetry_id = none;
  authoritative_payment_status = none;
  signature_verified_at = none;
  webhook_confirmed_at = none;
  last_provider_reconciled_at = none;
  expires_at = some (now + 24 * hour);
  abandoned_at = none;
  created_at = now;
  updated_at = now;
}

unfoldable pub create_pending :
    PendingOrder → (fresh : ℕ) (receipt : String) (now : ℕ) → Exec CheckoutStore CheckoutOrderRow
create_pending x fresh receipt now = do
  raise_if (is_too_early x.client_event_at now) value_error
  insert_order (pending_row x fresh receipt now)

abbrev pub failed_order : ℕ → CheckoutOrderRow → CheckoutOrderRow
failed_order now r = record r {
  provider_status = "PROVIDER_ORDER_FAILED";
  lifecycle_status = provider_order_failed;
  updated_at = now;
}

abbrev pub fail_order : ℕ → Option CheckoutOrderRow → Exec CheckoutStore (Unit {0})
fail_order now none = pure tt
fail_order now (some r) = modify (updated_order (failed_order now r))

unfoldable pub mark_provider_failed : ℕ → (now : ℕ) → Exec CheckoutStore (Unit {0})
mark_provider_failed id now = do r ← gets (find_order id); fail_order now r

abbrev pub order_id_of : Json → Result String
order_id_of (string s) = if starts_with s "order_" then ok s else err value_error
order_id_of _ = err value_error

-- `attempts`, where it is a count
abbrev pub attempts_of : Json → ℕ
attempts_of (integer n) = n
attempts_of _ = 0

abbrev pub opened_order :
    String → (attempts telemetry_id now : ℕ) → CheckoutOrderRow → CheckoutOrderRow
opened_order order_id attempts telemetry_id now r = record r {
  razorpay_order_id = some order_id;
  provider_status = "created";
  provider_attempts = attempts;
  lifecycle_status = open_order;
  telemetry_id = some telemetry_id;
  last_provider_reconciled_at = some now;
  updated_at = now;
}

abbrev pub telemetry_row : String → (telemetry_id now : ℕ) → CheckoutOrderRow → TelemetryRow
telemetry_row order_id telemetry_id now r = record {
  telemetry_id = telemetry_id;
  account_id = r.account_id;
  order_id = order_id;
  payment_id = none;
  device_fingerprint_sha256 = r.device_fingerprint_sha256;
  customer_geo = r.customer_geo;
  client_event_at = r.client_event_at;
  observed_at = now;
}

abbrev pub matches_order : Fields → CheckoutOrderRow → Bool
matches_order d r =
    is_number r.amount (get "amount" d)
    && is_text r.currency (get "currency" d)
    && is_text r.receipt (get "receipt" d)

-- `razorpay_order_id` is unique: the commit raises where another session has it.
abbrev pub integrity_error : Exception
integrity_error = other_error "IntegrityError"

abbrev pub order_is_taken : String → ℕ → CheckoutStore → Bool
order_is_taken order_id id s =
    is_some (first_where (λ r. not (r.checkout_session_id == id) && is_order order_id r) s.orders)

unfoldable pub finalize_provider_order :
    ℕ → Fields → (telemetry_id now : ℕ) → Exec CheckoutStore CheckoutOrderRow
finalize_provider_order id d telemetry_id now = do
  order_id ← lift (order_id_of (get "id" d))
  raise_if (not (is_text "created" (get "status" d))) value_error
  r ← or_raise (find_order id (← gets (λ s. s))) lookup_error
  raise_if (not (matches_order d r)) value_error
  raise_if (order_is_taken order_id id (← gets (λ s. s))) integrity_error
  write_order (opened_order order_id (attempts_of (get "attempts" d)) telemetry_id now r)
      (λ s. s.telemetry ++ telemetry_row order_id telemetry_id now r ∷ [])
