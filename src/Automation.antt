-- ===== src/Automation.antt =====
-- `HoldAutomationOrchestrator.run_once` of src/razortrust/automation.py.
pub mod Counts
use razor_trust.Common.{
  ℕ, zero, suc, ◌+◌, ◌-◌, ◌*◌, ◌/◌, ◌%◌, ◌≤◌, ◌<◌, String, ◌≡◌, refl, sym, ap, ◌∙◌, ◌≢◌, ◌↔◌, ◌⊎◌,
  inl, inr, Bool, true, false, not, ◌&&◌, ◌||◌, Option, none, some, List, [], ◌∷◌, ◌++◌, map, arith,
  str_eq, eq_iff, ltb, leb, ◌==◌, if◌then◌else◌, is_some, ==_iff, ==_refl, Bool-cases, Option-cases,
  length, take, replicate, last, length-append, All, All-append, All_mono,
}
use razor_trust.Common.Exec.{
  Exception, Result, ok, err, and_then, Exec, pure, raise, lift, gets, or_raise, modify, raise_if,
  ◌>>=◌, ◌>>◌, Result-cases, hold_not_found, invalid_transition, key_error, arithmetic_error,
  runtime_error, value_error, audit_format_error, policy_unavailable, authorization_unavailable,
  assertion_error, index_error,
}
use razor_trust.Common.Dict.{Dict, lookup, insert, lookup-insert, lookup-empty}
use razor_trust.Common.Platform.{Platform, IsTotal}
use razor_trust.Domain.{
  HoldDecision, release, evidence_needed, HoldState, opened, awaiting_evidence, evidence_submitted,
  resolved, human_review, denied,
}

pub record AutomationCycleResult : Type 0 where
  pub scanned : ℕ
  pub evaluated : ℕ
  pub skipped_missing_input : ℕ
  pub skipped_non_open : ℕ
  pub failures : ℕ

abbrev pub no_cycle : AutomationCycleResult
no_cycle = record {
  scanned = 0;
  evaluated = 0;
  skipped_missing_input = 0;
  skipped_non_open = 0;
  failures = 0;
}

-- A hold as the loop reads it: its identifier and its state.
abbrev pub ScannedHold : Type 0
ScannedHold = ℕ × HoldState

abbrev pub is_open : HoldState → Bool
is_open opened = true
is_open _ = false

-- `except (InvalidTransition, KeyError)`; `HoldNotFound` is a `LookupError`, which passes.
abbrev pub lacks_input : Exception → Bool
lacks_input invalid_transition = true
lacks_input key_error = true
lacks_input _ = false

-- The repository and the service, which the constructor takes.
pub record Services (S Input : Type 0) : Type 1 where
  pub list_holds : (limit : ℕ) → Exec S (List ScannedHold)
  pub get_evaluation_input : ℕ → Exec S Input
  pub evaluate : ℕ → Input → Exec S (Unit {0})

module _ {S Input : Type 0} (services : Services S Input) where
  -- The second `try` statement: every exception is counted.
  abbrev pub count_evaluation :
      AutomationCycleResult → Result (Unit {0}) × S → Result AutomationCycleResult × S
  count_evaluation v (ok done, s') = (ok (record v { evaluated = v.evaluated + 1 }), s')
  count_evaluation v (err x, s') = (ok (record v { failures = v.failures + 1 }), s')

  -- The first `try` statement
  abbrev pub evaluate_with :
      ℕ → AutomationCycleResult → Result Input × S → Result AutomationCycleResult × S
  evaluate_with id v (ok input, s') = count_evaluation v (services.evaluate id input s')
  evaluate_with id v (err x, s') = (
    if lacks_input x
        then ok (record v { skipped_missing_input = v.skipped_missing_input + 1 })
        else err x,
    s',
  )

  abbrev pub scan_open : ℕ → AutomationCycleResult → Exec S AutomationCycleResult
  scan_open id v s = evaluate_with id v (services.get_evaluation_input id s)

  abbrev pub scan_hold : ScannedHold → AutomationCycleResult → Exec S AutomationCycleResult
  scan_hold (id, state) v =
      if is_open state
      then scan_open id (record v { scanned = v.scanned + 1 })
      else pure (record v { scanned = v.scanned + 1; skipped_non_open = v.skipped_non_open + 1 })

  unfoldable pub scan_holds :
      List ScannedHold → AutomationCycleResult → Exec S AutomationCycleResult
  scan_holds [] v = pure v
  scan_holds (h ∷ hs) v = do v' ← scan_hold h v; scan_holds hs v'

  unfoldable pub run_once : (limit : ℕ) → Exec S AutomationCycleResult
  run_once limit = do holds ← services.list_holds limit; scan_holds holds no_cycle
