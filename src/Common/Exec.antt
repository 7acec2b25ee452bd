-- ===== src/Common/Exec.antt =====
-- Methods that may raise, over a mutable object. What was written before a raise stays written,
-- so the state comes back beside the exception too.
use Prim.Native.Nat.{ℕ}
use Prim.Native.String.{String}
use mathlib.Core.Path.{◌≡◌, refl, ap}
use native.Mathlib.Omega.{arith}
use mathlib.Core.Logic.{◌⊎◌, inl, inr}
use mathlib.Core.Bool.{Bool, true, false}
use mathlib.Core.Option.{Option, none, some}
use razor_trust.Common.Tests.{if◌then◌else◌}

-- The exceptions that the modelled code raises, or that it tells apart in an `except` clause.
pub data Exception : Type 0 where
  hold_not_found invalid_transition key_error : Exception
  arithmetic_error runtime_error value_error audit_format_error : Exception
  policy_unavailable authorization_unavailable assertion_error index_error : Exception
  type_error validation_error : Exception
  -- `RazorpayApiError`, with `status_code` and `retryable`
  api_error : Option ℕ → Bool → Exception
  -- any other exception, by the name of its class
  other_error : String → Exception

-- `except (ArithmeticError, RuntimeError, ValueError)`: `InvalidTransition`, `PolicyUnavailable`,
-- `AuthorizationUnavailable` and `RazorpayApiError` are `RuntimeError`s, `AuditFormatError` and
-- Pydantic's `ValidationError` are `ValueError`s, and `HoldNotFound` and `KeyError` are
-- `LookupError`s, which pass.
abbrev pub caught_by_score : Exception → Bool
caught_by_score hold_not_found = false
caught_by_score key_error = false
caught_by_score assertion_error = false
caught_by_score index_error = false
caught_by_score type_error = false
caught_by_score (other_error _) = false
caught_by_score _ = true

pub data Result {ℓ} (A : Type ℓ) : Type ℓ where
  ok : A → Result A
  err : Exception → Result A

abbrev pub Exec : Type 0 → Type 0 → Type 0
Exec S A = S → Result A × S

-- Two fallible functions with no state, one after the other.
abbrev pub and_then {ℓ κ} : {A : Type ℓ} {B : Type κ} → Result A → (A → Result B) → Result B
and_then (ok a) f = f a
and_then (err x) f = err x

module _ {S A : Type 0} where
  abbrev pub pure : A → Exec S A
  pure a s = (ok a, s)

  abbrev pub raise : Exception → Exec S A
  raise x s = (err x, s)

  abbrev pub lift : Result A → Exec S A
  lift r s = (r, s)

  abbrev pub gets : (S → A) → Exec S A
  gets f s = (ok (f s), s)

  -- `try: return d[k] except KeyError: raise x`
  abbrev pub or_raise : Option A → Exception → Exec S A
  or_raise none x s = (err x, s)
  or_raise (some a) x s = (ok a, s)

module _ {S : Type 0} where
  abbrev pub modify : (S → S) → Exec S (Unit {0})
  modify f s = (ok tt, f s)

  abbrev pub raise_if : Bool → Exception → Exec S (Unit {0})
  raise_if b x s = (if b then err x else ok tt, s)

infixl 5 ◌>>=◌ ◌>>◌
abbrev pub ◌>>=◌ : {S A B : Type 0} → Exec S A → (A → Exec S B) → Exec S B
◌>>=◌ m f s = let (r, s') = m s in elim r [ ok a ↦ f a s' | err x ↦ (err x, s') ]

abbrev pub ◌>>◌ : {S B : Type 0} → Exec S (Unit {0}) → Exec S B → Exec S B
m >> k = m >>= λ _. k

pub Result-cases {ℓ} :
    {A : Type ℓ} (r : Result A) → ((a : A) × (r ≡ ok a)) ⊎ ((x : Exception) × (r ≡ err x))
Result-cases (ok a) = inl (a, refl)
Result-cases (err x) = inr (x, refl)

-- The first action of a sequence returns.
pub bind_ok :
    {S A B : Type 0} (m : Exec S A) (k : A → Exec S B) (s s' : S) (a : A)
    → m s ≡ (ok a, s')
    → (m >>= k) s ≡ k a s'
bind_ok {S = S} {A = A} m k s s' a e =
    ap (λ (res : Result A × S). let (r, t) = res in elim r [ ok b ↦ k b t | err x ↦ (err x, t) ]) e

pub ok_injective {ℓ} : {A : Type ℓ} {a b : A} → ok a ≡ ok b → a ≡ b
ok_injective {A = A} {a = a} h = ap (λ (r : Result A). elim r [ ok y ↦ y | err x ↦ a ]) h

-- A sequence that returns ran its first action, which returned, and then the rest.
result_returns :
    {S A B : Type 0} (r : Result A) (s s' : S) (k : A → Exec S B) (b : B)
    → Path (Result B × S) (elim r [ ok a ↦ k a s | err x ↦ (err x, s) ]) (ok b, s')
    → (a : A) × (r ≡ ok a) × (k a s ≡ (ok b, s'))
result_returns (ok a) s s' k b q = (a, refl, q)
result_returns {B = B} (err x) s s' k b q =
    let refused : Path (Result B) (err x) (ok b) = ap (λ y. y.0) q in ground arith

pub bind_returns :
    {S A B : Type 0} (m : Exec S A) (k : A → Exec S B) (s s' : S) (b : B)
    → (m >>= k) s ≡ (ok b, s')
    → (a : A) × ((m s).0 ≡ ok a) × (k a (m s).1 ≡ (ok b, s'))
bind_returns m k s s' b q = result_returns (m s).0 (m s).1 s' k b q
