-- ===== src/Checkout/Stats.antt =====
-- `stats` and `resolve_account_id` of `SqlCheckoutBridgeStore` (src/razortrust/checkout_bridge.py).
use razor_trust.Database.Queries.{first_where}
use razor_trust.Checkout.Rows.{
  CheckoutStore, Lifecycle, open_order, attempted, attempt_failed, paid, abandoned, authorized,
}
use razor_trust.Checkout.Rules.{lifecycle_eq}
use razor_trust.Checkout.Store.{lookup_error}
use razor_trust.Timeline.Latest.{keep_if}
use razor_trust.Common.{
  ℕ, ◌+◌, String, Option, none, some, List, [], ◌∷◌, str_eq, if◌then◌else◌, is_some, length,
}
use razor_trust.Common.Exec.{Result, ok, err, value_error}

pub record CheckoutStats : Type 0 where
  pub checkout_sessions : ℕ
  pub verified_checkout_sessions : ℕ
  pub checkout_payment_attempts : ℕ
  pub checkout_open_sessions : ℕ
  pub checkout_authorized_sessions : ℕ
  pub checkout_attempted_sessions : ℕ
  pub checkout_paid_sessions : ℕ
  pub checkout_abandoned_sessions : ℕ

unfoldable pub sessions_in : Lifecycle → CheckoutStore → ℕ
sessions_in lifecycle s = length (keep_if (λ r. lifecycle_eq r.lifecycle_status lifecycle) s.orders)

unfoldable pub checkout_stats : CheckoutStore → CheckoutStats
checkout_stats s = record {
  checkout_sessions = length s.orders;
  verified_checkout_sessions = length (keep_if (λ r. is_some r.signature_verified_at) s.orders);
  checkout_payment_attempts = length s.attempts;
  checkout_open_sessions = sessions_in open_order s;
  checkout_authorized_sessions = sessions_in authorized s;
  checkout_attempted_sessions = sessions_in attempted s + sessions_in attempt_failed s;
  checkout_paid_sessions = sessions_in paid s;
  checkout_abandoned_sessions = sessions_in abandoned s;
}

-- The account that checkout sessions are for, of the accounts of the provider, the first seen first.
abbrev pub only_account : (accounts : List String) → Result String
only_account [] = err lookup_error
only_account (x ∷ []) = ok x
only_account (x ∷ y ∷ xs) = err value_error

unfoldable pub resolve_account_id :
    (preferred_account_id : Option String) (accounts : List String) → Result String
resolve_account_id none accounts = only_account accounts
resolve_account_id (some preferred) accounts =
    if str_eq preferred ""
    then only_account accounts
    else elim (first_where (λ a. str_eq a preferred) accounts) [
      | none ↦ err lookup_error
      | some account ↦ ok account
    ]
