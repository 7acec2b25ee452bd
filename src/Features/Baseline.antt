-- ===== src/Features/Baseline.antt =====
-- The validator of a merchant's baseline (src/razortrust/domain.py), and what the features rely on it for.
use razor_trust.Common.{◌+◌, Bool, false, not, ◌&&◌, ◌||◌, List, [], ◌∷◌, ◌==◌, length}
use razor_trust.Common.Platform.{Platform}
use razor_trust.Domain.{MerchantBaseline}

module _ (p : Platform) where
  open p use {Float, lt, le, mul, div, log, lit, sum}

  -- `any(right <= left for left, right in pairwise(edges))`
  unfoldable pub is_unordered : List Float → Bool
  is_unordered [] = false
  is_unordered (left ∷ []) = false
  is_unordered (left ∷ right ∷ edges) = le right left || is_unordered (right ∷ edges)

  unfoldable pub any_negative : List Float → Bool
  any_negative [] = false
  any_negative (x ∷ xs) = lt x (lit 0 0) || any_negative xs

  -- `validate_histogram`: `true` accepts
  unfoldable pub validate_histogram : MerchantBaseline Float → Bool
  validate_histogram b =
      length b.amount_bin_edges == length b.amount_bin_probabilities + 1
      && not (is_unordered b.amount_bin_edges)
      && not (any_negative b.amount_bin_probabilities)
      && (le (lit 999 3) (sum b.amount_bin_probabilities)
          && le (sum b.amount_bin_probabilities) (lit 1001 3))
