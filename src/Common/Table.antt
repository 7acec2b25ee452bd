-- ===== src/Common/Table.antt =====
-- A Python `dict` whose keys are strings, as its items in insertion order.
use Prim.Native.String.{String}
use mathlib.Core.Path.{◌≡◌, refl}
use mathlib.Core.Option.{Option, none, some}
use mathlib.Core.List.{List, [], ◌∷◌}
use native.Mathlib.Omega.{arith}
use text.Mathlib.Text.{◌==◌ as str_eq}
use text.Mathlib.TextEquality.{eq_iff}
use razor_trust.Common.Tests.{if◌then◌else◌}

abbrev pub Table {ℓ} : Type ℓ → Type ℓ
Table V = List (String × V)

module _ {ℓ} {V : Type ℓ} where
  -- `d.get(k)`
  unfoldable pub entry_at : String → Table V → Option V
  entry_at k [] = none
  entry_at k ((i, v) ∷ d) = if str_eq i k then some v else entry_at k d

  -- `d[k] = v`: a known key keeps its place
  unfoldable pub put_entry : String → V → Table V → Table V
  put_entry k v [] = (k, v) ∷ []
  put_entry k v ((i, w) ∷ d) = if str_eq i k then (i, v) ∷ d else (i, w) ∷ put_entry k v d

  pub entry_at-put_entry :
      (k j : String) (v : V) (d : Table V)
      → entry_at j (put_entry k v d) ≡ (if str_eq k j then some v else entry_at j d)
  unfolding entry_at put_entry
  entry_at-put_entry k j v [] = refl
  entry_at-put_entry k j v ((i, w) ∷ d) =
      ground (arith, eq_iff k j, eq_iff i k, eq_iff i j, entry_at-put_entry k j v d)
