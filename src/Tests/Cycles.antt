-- ===== src/Tests/Cycles.antt =====
-- The theorem about the automation, on two holds.
use razor_trust.Automation.Counts.{run_once_counts, outcomes}
use razor_trust.Automation.{run_once, lacks_input, Services, AutomationCycleResult}
use razor_trust.Common.{ℕ, ◌≡◌, refl, sym, ap, true, [], ◌∷◌}
use razor_trust.Common.Exec.{Exception, Result, ok, err, pure, invalid_transition}
use razor_trust.Domain.{opened, resolved}

-- Two holds: one that waits for its decision, with no input, and one that is resolved.
abbrev two_holds : Services ℕ ℕ
two_holds = record {
  list_holds = λ limit. pure ((7, opened) ∷ (8, resolved) ∷ []);
  get_evaluation_input = λ id s. (err invalid_transition, s);
  evaluate = λ id input. pure tt;
}

get_evaluation_input-caught :
    (id s s' : ℕ) (x : Exception)
    → two_holds.get_evaluation_input id s ≡ (err x, s')
    → lacks_input x ≡ true
get_evaluation_input-caught id s s' x h =
    sym (ap (λ (r : Result ℕ × ℕ). elim r.0 [ ok a ↦ true | err y ↦ lacks_input y ]) h)

run_once_counts_example :
    (v : AutomationCycleResult) × (s'' : ℕ) × (run_once two_holds 10 3 ≡ (ok v, s''))
    × (v.scanned ≡ 2)
    × (outcomes v ≡ 2)
run_once_counts_example =
    run_once_counts two_holds get_evaluation_input-caught 10 3 3 ((7, opened) ∷ (8, resolved) ∷ [])
      refl
