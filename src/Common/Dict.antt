-- ===== src/Common/Dict.antt =====
-- A Python `dict` whose keys are UUIDs, as its items in insertion order. A UUID is only
-- compared, so it is the number that it encodes.
use razor_trust.Common.{◌≢◌}
use Prim.Native.Nat.{ℕ}
use mathlib.Core.Path.{◌≡◌, refl}
use mathlib.Core.Option.{Option, none, some}
use mathlib.Core.List.{List, [], ◌∷◌}
use native.Mathlib.Omega.{arith}
use razor_trust.Common.Tests.{◌==◌, if◌then◌else◌}

abbrev pub Dict {ℓ} : Type ℓ → Type ℓ
Dict V = List (ℕ × V)

module _ {ℓ} {V : Type ℓ} where
  -- `d.get(k)`
  unfoldable pub lookup : ℕ → Dict V → Option V
  lookup k [] = none
  lookup k ((i, v) ∷ d) = if i == k then some v else lookup k d

  -- `d[k] = v`: a known key keeps its place
  unfoldable pub insert : ℕ → V → Dict V → Dict V
  insert k v [] = (k, v) ∷ []
  insert k v ((i, w) ∷ d) = if i == k then (i, v) ∷ d else (i, w) ∷ insert k v d

  pub lookup-insert :
      (k j : ℕ) (v : V) (d : Dict V)
      → lookup j (insert k v d) ≡ (if k == j then some v else lookup j d)
  unfolding lookup insert
  lookup-insert k j v [] = refl
  lookup-insert k j v ((i, w) ∷ d) = ground (arith, lookup-insert k j v d)

  pub lookup-inserted : (k : ℕ) (v : V) (d : Dict V) → lookup k (insert k v d) ≡ some v
  lookup-inserted k v d = ground (arith, lookup-insert k k v d)

  pub lookup-insert-other :
      (k j : ℕ) (v : V) (d : Dict V) → k ≢ j → lookup j (insert k v d) ≡ lookup j d
  lookup-insert-other k j v d ne = ground (arith, lookup-insert k j v d)

  pub lookup-empty : (k : ℕ) → lookup k [] ≡ none
  unfolding lookup
  lookup-empty k = refl

pub ruleset dict_laws = (lookup-insert, lookup-empty)

module _ {ℓ} {V : Type ℓ} where
  pub insert-insert : (k : ℕ) (v w : V) (d : Dict V) → insert k v (insert k w d) ≡ insert k v d
  unfolding insert
  insert-insert k v w [] = ground arith
  insert-insert k v w ((i, u) ∷ d) = ground (arith, insert-insert k v w d)
