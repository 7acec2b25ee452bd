-- ===== src/Costs/Choice.antt =====
-- The choice of a candidate.
use razor_trust.Costs.{
  candidate, Thresholds, ModelPrediction, expected_cost, choose, validate_shape_and_order,
  canonical_order, products, CostMatrixArtifact, cost_at, same_decisions, expected_costs,
  wrong_width,
}
use razor_trust.Common.{ℕ, ◌≡◌, refl, true, false, List, [], ◌∷◌, arith, ◌==◌, length}
use razor_trust.Common.Exec.{ok}
use razor_trust.Common.Platform.{Platform}
use razor_trust.Domain.{HoldDecision, release, evidence_needed}

-- A list of three.
abbrev Three : {A : Type 0} → List A → Type 0
Three {A} xs = (a : A) × (b : A) × (c : A) × (xs ≡ a ∷ b ∷ c ∷ [])

three : {A : Type 0} (xs : List A) → (length xs == 3) ≡ true → Three xs
three [] h = cc
three (a ∷ []) h = cc
three (a ∷ b ∷ []) h = cc
three (a ∷ b ∷ c ∷ []) h = (a, b, c, refl)
three (a ∷ b ∷ c ∷ d ∷ xs) h = absurd (ground arith)

canonical :
    (ds : List HoldDecision) → same_decisions ds canonical_order ≡ true → ds ≡ canonical_order
unfolding same_decisions
canonical [] h = cc
canonical (a ∷ []) h = absurd (ground arith)
canonical (a ∷ b ∷ []) h = absurd (ground arith)
canonical (a ∷ b ∷ c ∷ []) h = ground arith
canonical (a ∷ b ∷ c ∷ d ∷ ds) h = absurd (ground arith)

module _ (p : Platform) where
  open p use {Float, mul, sum, round6}

  narrow :
      (r : List Float) (rows : List (List Float))
      → wrong_width p (r ∷ rows) ≡ false
      → ((length r == 3) ≡ true) × (wrong_width p rows ≡ false)
  unfolding wrong_width
  narrow r rows h = ground arith

  -- Three rows of the right width give each action the cost of its row.
  abbrev RowCost : List Float → Float → Float → Float → Type 0
  RowCost row x y z = (ys : List Float) × (products p row (x ∷ y ∷ z ∷ []) ≡ ok ys)

  RowCost-total : (row : List Float) (x y z : Float) → (length row == 3) ≡ true → RowCost row x y z
  unfolding products
  RowCost-total row x y z h =
      let (a, b, c, e) = three row h in (mul a x ∷ mul b y ∷ mul c z ∷ [], rw e refl)

  costs_total :
      (r1 r2 r3 : List Float) (x y z : Float)
      → RowCost r1 x y z
      → RowCost r2 x y z
      → RowCost r3 x y z
      → (a : Float) × (b : Float) × (c : Float) × (expected_costs p canonical_order
            (r1 ∷ r2 ∷ r3 ∷ [])
            (x ∷ y ∷ z ∷ [])
          ≡ ok ((release, a) ∷ (evidence_needed, b) ∷ (HoldDecision.escalate, c) ∷ []))
  unfolding expected_costs
  costs_total r1 r2 r3 x y z (a, ea) (b, eb) (c, ec) =
      (sum a, sum b, sum c, rw ea (rw eb (rw ec refl)))

  cost_at_total :
      (d : HoldDecision) (a b c : Float)
      → (x : Float) × (cost_at p d
            ((release, a) ∷ (evidence_needed, b) ∷ (HoldDecision.escalate, c) ∷ [])
          ≡ ok x)
  unfolding cost_at
  cost_at_total release a b c = (a, refl)
  cost_at_total evidence_needed a b c = (b, refl)
  cost_at_total HoldDecision.escalate a b c = (c, refl)

  module _ (costs : CostMatrixArtifact Float)
      (valid : validate_shape_and_order p costs ≡ true) where
    actions_canonical : costs.actions ≡ canonical_order
    unfolding validate_shape_and_order
    actions_canonical = canonical costs.actions (ground arith)

    shape : ((length costs.matrix == 3) ≡ true) × (wrong_width p costs.matrix ≡ false)
    unfolding validate_shape_and_order
    shape = ground arith

    matrix_costs :
        (x y z : Float)
        → (a : Float) × (b : Float) × (c : Float) × (expected_costs p costs.actions costs.matrix
              (x ∷ y ∷ z ∷ [])
            ≡ ok ((release, a) ∷ (evidence_needed, b) ∷ (HoldDecision.escalate, c) ∷ []))
    matrix_costs x y z =
        let (r1, r2, r3, e) = three costs.matrix shape.0 in
        let wide : wrong_width p (r1 ∷ r2 ∷ r3 ∷ []) ≡ false = rw (← e) shape.1 in
        let n1 = narrow r1 (r2 ∷ r3 ∷ []) wide in
        let n2 = narrow r2 (r3 ∷ []) n1.1 in
        let n3 = narrow r3 [] n2.1 in
        rw actions_canonical (
          rw e (
            costs_total r1 r2 r3 x y z (RowCost-total r1 x y z n1.0) (RowCost-total r2 x y z n2.0)
              (RowCost-total r3 x y z n3.0)))

    -- An accepted cost matrix gives every prediction a candidate and a cost: `choose` never raises, and
    -- the cost that it reports is the expected cost of its candidate.
    pub choose_total :
        (m : ModelPrediction Float) (n : ℕ) (t : Thresholds Float)
        → (x : Float) × (choose p costs m n t ≡ ok (candidate p m n t, x))
          × (expected_cost p costs m (candidate p m n t) ≡ ok x)
    unfolding choose expected_cost
    choose_total m n t =
        let v = m.probabilities in
        let (a, b, c, e) = matrix_costs v.release v.evidence_needed v.escalate in
        let (x, at) = cost_at_total (candidate p m n t) a b c in
        (round6 x, rw e (rw at refl), rw e (rw at refl))
