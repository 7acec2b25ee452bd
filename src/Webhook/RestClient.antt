-- ===== src/Webhook/RestClient.antt =====
-- `RazorpayClient` of src/razortrust/integrations/razorpay.py, around its HTTP requests.
use Prim.Native.Char.{code}
use razor_trust.Processor.Read.{has_length, is_short}
use razor_trust.Processor.Json.{string, integer, field, end, object, Fields, Json}
use razor_trust.Common.Fallible.{◌>>=◌, ◌>>◌, refuse_if}
use razor_trust.Common.{
  ℕ, String, Bool, true, false, not, ◌&&◌, ◌||◌, Option, none, some, str_eq, leb, ◌==◌,
  if◌then◌else◌,
}
use razor_trust.Common.Exec.{api_error, Result, ok, err, value_error}

-- What httpx makes of a request: a decoded body, a status that is no success, a failed transport, or a
-- body that is no JSON.
pub data Response : Type 0 where
  body : Json → Response
  error_status : ℕ → Response
  transport_failed : Response
  invalid_json : Response

abbrev pub is_retryable_status : ℕ → Bool
is_retryable_status status_code = (status_code == 429) || leb 500 status_code

-- The `try` statement of `_request` and the test of its payload
unfoldable pub response_result : Response → Result Fields
response_result (body (object payload)) = ok payload
response_result (body _) = err (api_error none false)
response_result (error_status status_code) =
    err (api_error (some status_code) (is_retryable_status status_code))
response_result transport_failed = err (api_error none true)
response_result invalid_json = err (api_error none false)

abbrev pub is_allowed_code : ℕ → Bool
is_allowed_code n =
    (leb 97 n && leb n 122)
    || (leb 65 n && leb n 90)
    || (leb 48 n && leb n 57)
    || (n == 95)
    || (n == 45)

-- `_safe_provider_id`, over the code points of the text
abbrev pub all_allowed : String → Bool
all_allowed String.[] = true
all_allowed (String.◌∷◌ c s) = is_allowed_code (code c) && all_allowed s

unfoldable pub safe_provider_id : String → Result String
safe_provider_id value =
    if not (is_short value)
    then err value_error
    else if all_allowed value
    then ok value
    else err value_error

abbrev pub in_bounds : (low high n : ℕ) → Bool
in_bounds low high n = leb low n && leb n high

abbrev pub day_in_bounds : Option ℕ → Bool
day_in_bounds none = true
day_in_bounds (some day) = in_bounds 1 31 day

abbrev pub notes_field : Option Fields → Fields
notes_field none = end
notes_field (some end) = end
notes_field (some (field k v d)) = field "notes" (object (field k v d)) end

-- The requests, by path: `_get` with its parameters, and `_post` with its body.
module _ (get_request : String → Fields → Response) (post_request : String → Fields → Response)
    (join : String → String → String) where
  -- `fetch_order`, `fetch_payment`, `fetch_refund`, `fetch_settlement` and `fetch_dispute`
  abbrev pub fetch_entity : (path : String) → String → Result Fields
  fetch_entity path id =
      safe_provider_id id >>= λ s. response_result (get_request (join path s) end)

  unfoldable pub create_order :
      (amount : ℕ) (currency receipt : String) → Option Fields → Result Fields
  create_order amount currency receipt notes = do
    refuse_if (amount == 0) value_error
    refuse_if (not (str_eq currency "INR")) value_error
    refuse_if (not (has_length 1 40 receipt)) value_error
    response_result (
        post_request "/orders" (
          field "amount" (integer amount) (
            field "currency" (string currency)
              (field "receipt" (string receipt) (notes_field notes)))))

  unfoldable pub fetch_settlement_recon :
      (year month : ℕ) → Option ℕ → (page_count skip : ℕ) → Result Fields
  fetch_settlement_recon year month day page_count skip = do
    refuse_if (not (in_bounds 2000 2200 year)) value_error
    refuse_if (not (in_bounds 1 12 month)) value_error
    refuse_if (not (day_in_bounds day)) value_error
    refuse_if (not (in_bounds 1 1000 page_count)) value_error
    response_result (
        get_request "/settlements/recon/combined" (
          field "year" (integer year) (
            field "month" (integer month) (
              field "count" (integer page_count) (
                field "skip" (integer skip)
                  (elim day [ none ↦ end | some n ↦ field "day" (integer n) end ]))))))
