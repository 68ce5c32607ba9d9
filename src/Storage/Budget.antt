-- ===== src/Storage/Budget.antt =====
-- backend/app/storage.py: the model-call budget of an incident, which `reserve_incident_model_call`
-- charges before a call of the provider.
pub mod Laws
use remedy_graph.Prelude.{
  ℕ, ◌+◌, min, String, Option, none, some, [], Bool, leb, if◌then◌else◌, lookup, insert,
}
use remedy_graph.Result.{
  model_call, budget_exceeded, value_error, state_integrity, storage_busy, Result, ok, err,
}
use remedy_graph.Models.{Incident}
use remedy_graph.Audit.Contracts.{BudgetUsage, usage_does_not_exceed_limits}
use remedy_graph.Audit.Budget.{max_model_calls_per_incident}
use remedy_graph.Storage.{Store, commit}

-- BudgetUsage(…): the validator of the class
unfoldable pub validated : BudgetUsage → Result BudgetUsage
validated u = if usage_does_not_exceed_limits u then ok u else err (value_error "budget exceeded")

-- BudgetUsage(model_calls_limit=limit): the defaults of the class
abbrev pub fresh_usage : ℕ → BudgetUsage
fresh_usage limit = record {
  model_calls_used = 0;
  model_calls_limit = limit;
  investigation_round_limit = 3;
  investigation_rounds = [];
  deterministic_checks_run = 0;
}

unfoldable pub get_incident_budget : Store → String → Option BudgetUsage
get_incident_budget s incident_id = lookup incident_id s.incident_budget_counters

abbrev pub or_fresh : Option BudgetUsage → ℕ → BudgetUsage
or_fresh none limit = fresh_usage limit
or_fresh (some u) limit = u

unfoldable pub effective_limit : BudgetUsage → ℕ → ℕ
effective_limit current limit =
    min (min current.model_calls_limit limit) max_model_calls_per_incident

abbrev pub charged : BudgetUsage → ℕ → BudgetUsage
charged current limit = record current {
  model_calls_used = current.model_calls_used + 1;
  model_calls_limit = effective_limit current limit;
}

module _ (accepts : Store → Bool) where
  store_counter : String → Result BudgetUsage → Store → Result BudgetUsage × Store
  store_counter incident_id (err e) s = (err e, s)
  store_counter incident_id (ok updated) s =
      commit accepts (state_integrity "incident model budget violates integrity") updated s
        (record s {
          incident_budget_counters = insert incident_id updated s.incident_budget_counters;
        })

  charge : String → ℕ → Result BudgetUsage → Store → Result BudgetUsage × Store
  unfolding store_counter
  charge incident_id limit (err e) s = (err e, s)
  charge incident_id limit (ok current) s =
      if leb (effective_limit current limit) current.model_calls_used
      then (err (budget_exceeded model_call), s)
      else store_counter incident_id (validated (charged current limit)) s

  -- with the incident that was looked up
  reserve_for : Option Incident → String → ℕ → Store → Result BudgetUsage × Store
  unfolding charge
  reserve_for none incident_id limit s =
      (err (state_integrity "model budget references an unknown incident"), s)
  reserve_for (some incident) incident_id limit s =
      charge incident_id limit (validated (or_fresh (get_incident_budget s incident_id) limit)) s

  -- `locked` says that another connection holds the database at `BEGIN IMMEDIATE`.
  unfoldable pub reserve_incident_model_call :
      Bool → String → ℕ → Store → Result BudgetUsage × Store
  unfolding reserve_for
  reserve_incident_model_call locked incident_id limit s =
      if locked
      then (err storage_busy, s)
      else reserve_for (lookup incident_id s.incidents) incident_id limit s
