-- ===== src/Automation/Counts.antt =====
-- A cycle counts every hold once.
use razor_trust.Automation.{
  evaluate_with, count_evaluation, no_cycle, scan_holds, run_once, is_open, scan_hold, lacks_input,
  ScannedHold, AutomationCycleResult, Services,
}
use razor_trust.Common.{
  ℕ, suc, ◌+◌, ◌≡◌, refl, inl, inr, true, false, List, [], ◌∷◌, arith, Bool-cases, length,
}
use razor_trust.Common.Exec.{bind_ok, Exception, Result, ok, err}

abbrev pub outcomes : AutomationCycleResult → ℕ
outcomes v = v.evaluated + v.skipped_missing_input + v.skipped_non_open + v.failures

-- One more hold is scanned, with one outcome.
abbrev CountsOne : {S : Type 0} → AutomationCycleResult → Result AutomationCycleResult × S → Type 0
CountsOne v (ok v', s') = (v'.scanned ≡ v.scanned + 1) × (outcomes v' ≡ outcomes v + 1)
CountsOne v (err x, s') = true ≡ false

module _ {S Input : Type 0} (services : Services S Input)
    (caught : (id : ℕ) (s s' : S) (x : Exception)
      → services.get_evaluation_input id s ≡ (err x, s')
      → lacks_input x ≡ true) where
  count_evaluation-CountsOne :
      (v : AutomationCycleResult) (res : Result (Unit {0}) × S)
      → CountsOne v (count_evaluation services (record v { scanned = v.scanned + 1 }) res)
  count_evaluation-CountsOne v (ok done, s') = (refl, omega arith)
  count_evaluation-CountsOne v (err x, s') = (refl, omega arith)

  evaluate_with-CountsOne :
      (id : ℕ) (v : AutomationCycleResult) (res : Result Input × S)
      → ((x : Exception) (s' : S) → res ≡ (err x, s') → lacks_input x ≡ true)
      → CountsOne v (evaluate_with services id (record v { scanned = v.scanned + 1 }) res)
  evaluate_with-CountsOne id v (ok input, s') caught = count_evaluation-CountsOne v _
  evaluate_with-CountsOne id v (err x, s') caught =
      rw (CountsOne, caught x s' refl) (refl, omega arith)

  scan_hold-CountsOne :
      (h : ScannedHold) (v : AutomationCycleResult) (s : S) → CountsOne v (scan_hold services h v s)
  scan_hold-CountsOne (id, state) v s = elim (Bool-cases (is_open state)) [
    | inl open_hold ↦ rw open_hold (
        evaluate_with-CountsOne id v (services.get_evaluation_input id s)
          (λ x s'. caught id s s' x))
    | inr settled ↦ rw settled (refl, omega arith)
  ]

  -- What the whole loop adds.
  abbrev CountsAll : ℕ → AutomationCycleResult → Result AutomationCycleResult × S → Type 0
  CountsAll n v (ok v', s') = (v'.scanned ≡ v.scanned + n) × (outcomes v' ≡ outcomes v + n)
  CountsAll n v (err x, s') = true ≡ false

  one_more :
      (n : ℕ) (v v' : AutomationCycleResult) (res : Result AutomationCycleResult × S)
      → v'.scanned ≡ v.scanned + 1
      → outcomes v' ≡ outcomes v + 1
      → CountsAll n v' res
      → CountsAll (suc n) v res
  one_more n v v' (ok v'', s') a b (c, d) = (omega (arith, a, c), omega (arith, b, d))
  one_more n v v' (err x, s') a b c = c

  scan_holds-CountsAll :
      (hs : List ScannedHold) (v : AutomationCycleResult) (s : S)
      → CountsAll (length hs) v (scan_holds services hs v s)
  unfolding scan_holds
  scan_holds-CountsAll [] v s = (omega arith, omega arith)
  scan_holds-CountsAll (h ∷ hs) v s =
      further (λ v' s'. scan_holds-CountsAll hs v' s') (scan_hold services h v s)
        (scan_hold-CountsOne h v s)
    where
      further :
          ((v' : AutomationCycleResult) (s' : S)
            → CountsAll (length hs) v' (scan_holds services hs v' s'))
          → (res : Result AutomationCycleResult × S) → CountsOne v res
          → CountsAll (suc (length hs)) v (
              let (r, s') = res in
              elim r [ ok v' ↦ scan_holds services hs v' s' | err x ↦ (err x, s') ])
      further ih (err x, s') one = one
      further ih (ok v', s') (a, b) = one_more (length hs) v v' _ a b (ih v' s')

  -- Where the list of holds is returned and no exception other than InvalidTransition or
  -- KeyError comes from `get_evaluation_input`, a cycle returns, whatever the evaluations raise;
  -- it scans every hold of the list, and its evaluated, skipped and failed holds add up to them.
  pub run_once_counts :
      (limit : ℕ) (s s' : S) (hs : List ScannedHold)
      → services.list_holds limit s ≡ (ok hs, s')
      → (v : AutomationCycleResult) × (s'' : S) × (run_once services limit s ≡ (ok v, s''))
        × (v.scanned ≡ length hs)
        × (outcomes v ≡ length hs)
  unfolding run_once
  run_once_counts limit s s' hs listed =
      rw (bind_ok (services.list_holds limit) (λ h. scan_holds services h no_cycle) s s' hs listed)
        (counted (scan_holds services hs no_cycle s') (scan_holds-CountsAll hs no_cycle s'))
    where
      counted :
          (res : Result AutomationCycleResult × S)
          → CountsAll (length hs) no_cycle res
          → (v : AutomationCycleResult) × (s'' : S) × (res ≡ (ok v, s''))
            × (v.scanned ≡ length hs)
            × (outcomes v ≡ length hs)
      counted (ok v, s'') (a, b) = (v, s'', refl, omega (arith, a), omega (arith, b))
      counted (err x, s'') h = ground arith
