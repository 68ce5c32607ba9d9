-- ===== src/Audit/Gateway.antt =====
-- backend/app/audit/budget.py: `BoundedProviderGateway`. The provider of structured generation is an
-- argument, and so is whether the database is locked when the budget is reserved.
pub mod Laws
use Prim.Native.String.{◌++◌ as ◌<>◌}
use remedy_graph.Prelude.{ℕ, String, List, [], ◌∷◌, ◌++◌, Bool, length}
use remedy_graph.Result.{value_error, Result, or_raise}
use remedy_graph.Ids.{stable_id, str}
use remedy_graph.Audit.Contracts.{BudgetUsage, WorkflowEvent, WorkflowEventType, AuditWorkflowState}
use remedy_graph.Storage.{Store}
use remedy_graph.Storage.Action.{Action, lift, reads, ◌>>=◌, ◌>>◌}
use remedy_graph.Storage.Budget.{reserve_incident_model_call}
use remedy_graph.Storage.Snapshot.{save_audit_state, load_audit_state}

module _ (sha256_hex : String → String) where
  -- the run's budget with the counter of its incident
  unfoldable pub charged_budget : BudgetUsage → BudgetUsage → BudgetUsage
  charged_budget budget incident_usage = record budget {
    model_calls_used = incident_usage.model_calls_used;
    model_calls_limit = incident_usage.model_calls_limit;
  }

  unfoldable pub consumed_event : String → AuditWorkflowState → BudgetUsage → WorkflowEvent
  consumed_event run_id state usage =
      let sequence = length state.events in
      record {
        id = stable_id sha256_hex "workflow_event" (run_id ∷ str sequence ∷ "budget_consumed" ∷ []);
        run_id = run_id;
        sequence = sequence;
        event_type = WorkflowEventType.budget_consumed;
        stage = state.summary.status;
        detail =
            "reserved model call "
            <> str usage.model_calls_used
            <> "/"
            <> str usage.model_calls_limit;
      }

  -- the state that is saved before the provider is called
  unfoldable pub charged_state : String → AuditWorkflowState → BudgetUsage → AuditWorkflowState
  charged_state run_id state incident_usage =
      let usage = charged_budget state.summary.budget incident_usage in
      record state {
        summary = record state.summary { budget = usage };
        events = state.events ++ consumed_event run_id state usage ∷ [];
      }

module _ (sha256_hex : String → String) (accepts : Store → Bool) {Request Output : Type 0}
    (provider : Request → Result Output) (run_id : String) where
  -- for the state that was loaded
  unfoldable pub generate_for : Bool → Request → AuditWorkflowState → Action Output
  generate_for locked request state = do
    incident_usage ←
        reserve_incident_model_call accepts locked state.summary.incident_id
          state.summary.budget.model_calls_limit
    save_audit_state accepts (charged_state sha256_hex run_id state incident_usage)
    lift (provider request)

  unfoldable pub generate : Bool → Request → Action Output
  generate locked request = do
    found ← reads (λ s. load_audit_state s run_id)
    state ← lift (or_raise found (value_error "audit run not found"))
    generate_for locked request state
