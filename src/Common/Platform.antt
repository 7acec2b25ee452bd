-- ===== src/Common/Platform.antt =====
-- What the program takes from the Python interpreter and does not define: binary64 arithmetic and
-- methods of `str`. Every definition that uses them takes them as an argument.
use Prim.Native.Nat.{ℕ}
use Prim.Native.String.{String}
use mathlib.Core.Path.{◌≡◌}
use mathlib.Core.Bool.{Bool, not}
use mathlib.Core.List.{List}

pub record Platform : Type 1 where
  pub Float : Type 0
  pub lt : Float → Float → Bool
  pub le : Float → Float → Bool
  pub add : Float → Float → Float
  pub sub : Float → Float → Float
  pub mul : Float → Float → Float
  pub div : Float → Float → Float
  pub neg : Float → Float
  -- `x ** 2`, and `sum` of floats, which Python 3.12 compensates
  pub square : Float → Float
  pub sum : List Float → Float
  -- neither an infinity nor NaN
  pub is_finite : Float → Bool
  -- `math.log`, and `statistics.fmean` and `statistics.pstdev` of a list that is not empty
  pub log : Float → Float
  pub fmean : List Float → Float
  pub pstdev : List Float → Float
  -- an `int` as a float
  pub of_int : ℕ → Float
  -- the literal `m / 10 ** e`, rounded to the nearest float
  pub lit : ℕ → ℕ → Float
  -- `round(x, 6)`
  pub round6 : Float → Float
  -- `timedelta.total_seconds()`, of a difference in microseconds
  pub total_seconds : ℕ → Float
  pub upper : String → String
  pub strip : String → String

-- IEEE comparison of finite numbers is total. The models refuse infinities and NaN
-- (`allow_inf_nan=False`).
abbrev pub IsTotal : Platform → Type 0
IsTotal p = (a b : p.Float) → p.lt a b ≡ not (p.le b a)
