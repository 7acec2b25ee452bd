-- ===== src/Processor/Read.antt =====
-- The readers of single fields in src/razortrust/razorpay_processor.py.
use text.Mathlib.Text.{starts_with}
use razor_trust.Common.Fallible.{◌>>=◌}
use razor_trust.Common.{
  ℕ, String, Bool, true, not, ◌&&◌, Option, none, some, str_eq, ltb, if◌then◌else◌,
}
use razor_trust.Common.Exec.{Result, ok, err, value_error}
use Prim.Native.String.{count}
use razor_trust.Processor.Json.{Json, Fields, null, integer, boolean, string, get}

-- `datetime.fromtimestamp`, in microseconds, which may raise, and `_hash_safe`: SHA-256 of the JSON
-- text. Both are libraries.
pub record Codec : Type 0 where
  pub from_timestamp : ℕ → Result ℕ
  pub hash_safe : Fields → String

-- A text of 1 to 128 characters.
abbrev pub is_short : String → Bool
is_short s = not (str_eq s "") && not (ltb 128 (count s))

-- `_required_text`
unfoldable pub required_text : String → Fields → Result String
required_text k d = elim (get k d) [
  | string s ↦ if is_short s then ok s else err value_error
  | _ ↦ err value_error
]

-- `_required_text` with a `prefix`
unfoldable pub prefixed_text : String → String → Fields → Result String
unfolding required_text
prefixed_text prefix k d =
    required_text k d >>= λ s. if starts_with s prefix then ok s else err value_error

-- `_optional_text`
unfoldable pub optional_text : Json → Result (Option String)
optional_text null = ok none
optional_text (string s) =
    if str_eq s "" then ok none else if ltb 128 (count s) then err value_error else ok (some s)
optional_text _ = err value_error

-- `_non_negative_int`
unfoldable pub non_negative_int : Json → ℕ → Result ℕ
non_negative_int null default = ok default
non_negative_int (integer n) default = ok n
non_negative_int _ default = err value_error

-- `_non_negative_int(value, default=-1)`, and the refusal of a negative amount
unfoldable pub required_amount : Json → Result ℕ
required_amount (integer n) = ok n
required_amount _ = err value_error

-- `value if isinstance(value, bool) else None`
abbrev pub optional_boolean : Json → Option Bool
optional_boolean (boolean b) = some b
optional_boolean _ = none

-- `value if isinstance(value, str) and len(value) >= 3 else default`, for the raw currency
abbrev pub long_text : Json → Option String
long_text (string s) = if ltb (count s) 3 then none else some s
long_text _ = none

-- `_provider_datetime`
unfoldable pub provider_datetime : Codec → Json → Result (Option ℕ)
provider_datetime c null = ok none
provider_datetime c (integer n) = c.from_timestamp n >>= λ t. ok (some t)
provider_datetime c _ = err value_error

-- The `max_length` of an optional field, and the range of the length of a required one.
abbrev pub fits_in : ℕ → Option String → Bool
fits_in n none = true
fits_in n (some s) = not (ltb n (count s))

abbrev pub has_length : (low high : ℕ) → String → Bool
has_length low high s = not (ltb (count s) low) && not (ltb high (count s))
