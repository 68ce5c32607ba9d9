-- ===== src/Audit/Budget.antt =====
-- backend/app/audit/budget.py: `BudgetTracker`. A method that mutates the tracker returns it
-- beside the result; the tracker comes back unchanged when the method raises.
pub mod Laws
use remedy_graph.Prelude.{
  ℕ, ◌+◌, String, Option, none, some, leb, if◌then◌else◌, Dict, lookup, insert,
}
use remedy_graph.Result.{
  BudgetKind, model_call, investigation_round, Error, budget_exceeded, Result, ok, err,
}
use remedy_graph.Audit.Contracts.{AuditFailureCode, BudgetUsage}

abbrev pub max_model_calls_per_incident : ℕ
max_model_calls_per_incident = 6

-- `BudgetExceeded.failure_code`
unfoldable pub failure_code : BudgetKind → AuditFailureCode
failure_code model_call = AuditFailureCode.model_call_budget_exhausted
failure_code investigation_round = AuditFailureCode.investigation_round_budget_exhausted

pub record BudgetTracker : Type 0 where
  pub usage : BudgetUsage

unfoldable pub consume_model_call : BudgetTracker → Result BudgetUsage × BudgetTracker
consume_model_call t =
    let usage = record t.usage { model_calls_used = t.usage.model_calls_used + 1 } in
    if leb t.usage.model_calls_limit t.usage.model_calls_used
    then (err (budget_exceeded model_call), t)
    else (ok usage, record { usage = usage })

-- rounds.get(invariant_id, 0)
unfoldable pub rounds_of : String → Dict ℕ → ℕ
rounds_of k m = elim (lookup k m) [ none ↦ 0 | some n ↦ n ]

unfoldable pub consume_investigation_round :
    BudgetTracker → String → Result BudgetUsage × BudgetTracker
unfolding rounds_of
consume_investigation_round t invariant_id =
    let current = rounds_of invariant_id t.usage.investigation_rounds in
    let usage = record t.usage {
      investigation_rounds = insert invariant_id (current + 1) t.usage.investigation_rounds;
    } in
    if leb t.usage.investigation_round_limit current
    then (err (budget_exceeded investigation_round), t)
    else (ok usage, record { usage = usage })

unfoldable pub record_check : BudgetTracker → BudgetUsage × BudgetTracker
record_check t =
    let usage = record t.usage {
      deterministic_checks_run = t.usage.deterministic_checks_run + 1;
    } in
    (usage, record { usage = usage })
