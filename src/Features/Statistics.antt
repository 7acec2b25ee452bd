-- ===== src/Features/Statistics.antt =====
-- The statistics of src/razortrust/features.py.
use razor_trust.Common.{
  ℕ, zero, suc, ◌+◌, ◌-◌, String, Bool, false, ◌&&◌, ◌||◌, Option, none, some, List, [], ◌∷◌, map,
  str_eq, ◌==◌, if◌then◌else◌, length, replicate, last,
}
use razor_trust.Common.Exec.{Result, ok, err, and_then, index_error}
use razor_trust.Common.Platform.{Platform}

-- `counts[i] += 1`
unfoldable pub increment : ℕ → List ℕ → List ℕ
increment i [] = []
increment zero (c ∷ cs) = suc c ∷ cs
increment (suc i) (c ∷ cs) = c ∷ increment i cs

abbrev pub increment_at : Option ℕ → List ℕ → List ℕ
increment_at none cs = cs
increment_at (some i) cs = increment i cs

unfoldable pub count_str : String → List String → ℕ
count_str x [] = 0
count_str x (y ∷ ys) = let rest = count_str x ys in if str_eq y x then suc rest else rest

-- `x in xs`
unfoldable pub has_str : String → List String → Bool
has_str x [] = false
has_str x (y ∷ ys) = str_eq y x || has_str x ys

-- `Counter(values).values()`: the counts, in the order in which the values come first.
unfoldable pub counter : (seen values : List String) → List ℕ
counter seen [] = []
counter seen (x ∷ xs) =
    let again = counter seen xs in
    let first = counter (x ∷ seen) xs in
    if has_str x seen then again else suc (count_str x xs) ∷ first

abbrev pub total : List ℕ → ℕ
total [] = 0
total (x ∷ xs) = x + total xs

-- `enumerate(xs)`
abbrev pub enumerate : ℕ → List ℕ → List (ℕ × ℕ)
enumerate i [] = []
enumerate i (x ∷ xs) = (i, x) ∷ enumerate (suc i) xs

module _ (p : Platform) where
  open p use {
    Float, lt, le, add, sub, mul, div, neg, square, sum, log, fmean, pstdev, of_int, lit, is_finite,
    total_seconds,
  }

  -- `x == 0`
  abbrev pub is_zero : Float → Bool
  is_zero x = le x (lit 0 0) && le (lit 0 0) x

  abbrev pub z_score : (value mean std : Float) → Float
  z_score value mean std = div (sub value mean) std

  unfoldable pub entropy : List String → Float
  entropy [] = lit 0 0
  entropy (x ∷ xs) =
      let n = of_int (suc (length xs)) in
      neg (sum (map (λ c. mul (div (of_int c) n) (log (div (of_int c) n))) (counter [] (x ∷ xs))))

  unfoldable pub coefficient_of_variation : List Float → Float
  coefficient_of_variation [] = lit 0 0
  coefficient_of_variation (x ∷ []) = lit 0 0
  coefficient_of_variation (x ∷ y ∷ xs) =
      let mean = fmean (x ∷ y ∷ xs) in
      if is_zero mean then lit 0 0 else div (pstdev (x ∷ y ∷ xs)) mean

  abbrev pub slope_of : ℕ → List ℕ → Float
  slope_of window_hours counts =
      let x_mean = div (of_int (window_hours - 1)) (lit 2 0) in
      let denominator =
        sum (
          map (λ (i, c). square (sub (of_int i) x_mean))
            (enumerate 0 (replicate window_hours 0))) in
      let y_mean = fmean (map of_int counts) in
      let slope =
        div
          (sum (
            map (λ (i, c). mul (sub (of_int i) x_mean) (sub (of_int c) y_mean))
              (enumerate 0 counts)))
          denominator in
      if is_zero denominator then lit 0 0 else slope

  -- The loop over `pairwise(edges)`, from bin `i` on; `n` is the last bin.
  unfoldable pub bin_from : (i n : ℕ) → Float → List Float → Option ℕ
  bin_from i n amount [] = none
  bin_from i n amount (left ∷ []) = none
  bin_from i n amount (left ∷ right ∷ edges) =
      let rest = bin_from (suc i) n amount (right ∷ edges) in
      if (le left amount && lt amount right) || (i == n && (le amount right && le right amount))
      then some i
      else rest

  abbrev pub is_above : Float → Option Float → Bool
  is_above amount none = false
  is_above amount (some edge) = lt edge amount

  -- There are two edges at least: the baseline's validator sees to it.
  unfoldable pub bin_of : List Float → Float → Option ℕ
  bin_of [] amount = none
  bin_of (edge ∷ edges) amount =
      let inner = bin_from 0 (length edges - 1) amount (edge ∷ edges) in
      if lt amount edge
      then some 0
      else if is_above amount (last (edge ∷ edges))
      then some (length edges - 1)
      else inner

  unfoldable pub histogram : List Float → List Float → List ℕ → List ℕ
  histogram edges [] counts = counts
  histogram edges (amount ∷ amounts) counts =
      histogram edges amounts (increment_at (bin_of edges amount) counts)

  abbrev pub smoothed : List ℕ → List Float
  smoothed counts =
      let n = add (of_int (total counts)) (mul (lit 1 6) (of_int (length counts))) in
      map (λ c. div (add (of_int c) (lit 1 6)) n) counts

  unfoldable pub histogram_probabilities : (amounts edges : List Float) → List Float
  histogram_probabilities amounts edges =
      smoothed (histogram edges amounts (replicate (length edges - 1) 0))

  -- `max(reference[index], smoothing)`; an index that the reference lacks is an `IndexError`.
  unfoldable pub kl_terms : (current reference : List Float) → Result (List Float)
  kl_terms [] reference = ok []
  kl_terms (value ∷ current) [] = err index_error
  kl_terms (value ∷ current) (r ∷ reference) =
      let rest = kl_terms current reference in
      let floor = if lt r (lit 1 12) then lit 1 12 else r in
      and_then rest (λ ts. ok (mul value (log (div value floor)) ∷ ts))
