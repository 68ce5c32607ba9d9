-- ===== src/Audit/Workflow/Run.antt =====
-- backend/app/audit/workflow.py: `run`, the stages in the order of the graph, and what becomes of an
-- exception. The graph is run by `langgraph`, whose `invoke` is a parameter; a state that is dumped
-- and read back between two nodes is the same state.
use Prim.Native.String.{◌++◌ as ◌<>◌}
use remedy_graph.Prelude.{String, Option, none, some, List, [], ◌∷◌, Bool, length, min}
use remedy_graph.Result.{
  Error, budget_exceeded, value_error, state_integrity, path_safety, guard_safety, runtime_error,
  key_error, type_error, os_error, overflow_error, syntax_error, yaml_error, http, storage_busy,
  integrity_error, Result, ok, err,
}
use remedy_graph.Models.{RunStatus, Project, Incident}
use remedy_graph.Audit.Contracts.{AuditFailureCode, BudgetUsage, AuditWorkflowState, failure}
use remedy_graph.Audit.Budget.{failure_code}
use remedy_graph.Audit.Compiler.Terms.{TextTools}
use remedy_graph.Storage.{Store}
use remedy_graph.Storage.Action.{Action, pure, lift, gets, reads, ◌>>=◌, ◌>>◌}
use remedy_graph.Storage.Budget.{get_incident_budget, validated}
use remedy_graph.Storage.Snapshot.{save_audit_state, load_audit_state}
use remedy_graph.Audit.Workflow.{Settings, Services, event}
use remedy_graph.Audit.Workflow.Stages.{
  saved, load_incident_actions, compile_invariants, retrieve_candidates, investigate_checks,
  assign_verdicts, build_evidence_graph, persist_completion,
}

-- a node of the graph
abbrev pub Node : Type 0
Node = AuditWorkflowState → Action AuditWorkflowState

-- the nodes one after the other
unfoldable pub in_order : List Node → Node
in_order [] state = pure state
in_order (node ∷ nodes) state = node state >>= in_order nodes

-- type(exc).__name__
abbrev pub error_name : Error → String
error_name (budget_exceeded kind) = "BudgetExceeded"
error_name (value_error m) = "ValueError"
error_name (state_integrity m) = "AuditStateIntegrityError"
error_name (path_safety m) = "PathSafetyError"
error_name (guard_safety m) = "GuardSafetyError"
error_name (runtime_error m) = "RuntimeError"
error_name (key_error m) = "KeyError"
error_name (type_error m) = "TypeError"
error_name (os_error m) = "OSError"
error_name (overflow_error m) = "OverflowError"
error_name (syntax_error m) = "SyntaxError"
error_name (yaml_error m) = "YAMLError"
error_name (http code m) = "HTTPException"
error_name storage_busy = "StorageBusyError"
error_name integrity_error = "IntegrityError"

-- `isinstance(exc, ValueError)` includes the subclasses
unfoldable pub failure_code_of : Error → AuditFailureCode
failure_code_of (budget_exceeded kind) = failure_code kind
failure_code_of (value_error m) = AuditFailureCode.invalid_state
failure_code_of (state_integrity m) = AuditFailureCode.invalid_state
failure_code_of (path_safety m) = AuditFailureCode.invalid_state
failure_code_of (guard_safety m) = AuditFailureCode.invalid_state
failure_code_of _ = AuditFailureCode.workflow_failed

-- the budget that the run starts with, before it is validated
unfoldable pub initial_budget : Settings → Option BudgetUsage → BudgetUsage
initial_budget settings none = record {
  model_calls_used = 0;
  model_calls_limit = settings.max_model_calls;
  investigation_round_limit = settings.max_investigation_rounds;
  investigation_rounds = [];
  deterministic_checks_run = 0;
}
initial_budget settings (some incident_budget) = record {
  model_calls_used = incident_budget.model_calls_used;
  model_calls_limit = min incident_budget.model_calls_limit settings.max_model_calls;
  investigation_round_limit = settings.max_investigation_rounds;
  investigation_rounds = [];
  deterministic_checks_run = 0;
}

unfoldable pub initial_state : Project → Incident → String → BudgetUsage → AuditWorkflowState
initial_state project incident run_id budget = record {
  summary = record {
    id = run_id;
    project_id = project.id;
    incident_id = incident.id;
    status = RunStatus.queued;
    total_actions = length incident.actions;
    completed_actions = 0;
    verdict_counts = [];
    assessed_protection_coverage = 0;
    budget = budget;
    failure_code = none;
    error = none;
  };
  actions = incident.actions;
  invariants = [];
  check_specs = [];
  evidence = [];
  check_results = [];
  verdicts = [];
  graph_nodes = [];
  graph_edges = [];
  events = [];
}

abbrev pub or_initial : AuditWorkflowState → Option AuditWorkflowState → AuditWorkflowState
or_initial initial none = initial
or_initial initial (some state) = state

-- `try: … except Exception as exc: …`
abbrev pub handle : {A : Type 0} → (Error → Action A) → Result A → Action A
handle handler (ok a) s = (ok a, s)
handle handler (err e) s = handler e s

abbrev pub attempt : {A : Type 0} → Action A → (Error → Action A) → Action A
attempt m handler s = let (r, s') = m s in handle handler r s'

-- current.model_copy(update={"summary": failed_summary})
abbrev pub with_failure : Error → AuditWorkflowState → AuditWorkflowState
with_failure e current = record current {
  summary = record current.summary {
    status = RunStatus.failed;
    failure_code = some (failure_code_of e);
    error = some ("audit failed safely: " <> error_name e);
  };
}

-- the state that is saved for an exception
unfoldable pub failed_state : (String → String) → Error → AuditWorkflowState → AuditWorkflowState
failed_state sha256_hex e current =
    event sha256_hex failure RunStatus.failed ("audit failed safely: " <> error_name e)
      (with_failure e current)

module _ (tools : TextTools) (sha256_hex : String → String) (services : Services)
    (settings : Settings) (accepts : Store → Bool) where
  -- the nodes that the constructor puts between START and END
  unfoldable pub nodes : List Node
  nodes =
      load_incident_actions tools sha256_hex services settings accepts
      ∷ compile_invariants tools sha256_hex services settings accepts
      ∷ retrieve_candidates tools sha256_hex services settings accepts
      ∷ investigate_checks tools sha256_hex services settings accepts
      ∷ assign_verdicts tools sha256_hex services settings accepts
      ∷ build_evidence_graph tools sha256_hex services settings accepts
      ∷ persist_completion tools sha256_hex services settings accepts
      ∷ []

  -- what is saved after an exception
  unfoldable pub recover : String → AuditWorkflowState → Error → Action AuditWorkflowState
  unfolding saved
  recover run_id initial e = do
    found ← reads (λ s. load_audit_state s run_id)
    saved accepts (failed_state sha256_hex e (or_initial initial found))

  module _ (invoke : List Node → Node) where
    -- from a valid budget
    unfoldable pub run_with : Project → Incident → String → BudgetUsage → Action AuditWorkflowState
    run_with project incident run_id budget =
        let initial = initial_state project incident run_id budget in
        attempt (save_audit_state accepts initial >> invoke nodes initial) (recover run_id initial)

    unfoldable pub run : Project → Incident → String → Action AuditWorkflowState
    unfolding run_with
    run project incident run_id = do
      incident_budget ← gets (λ s. get_incident_budget s incident.id)
      budget ← lift (validated (initial_budget settings incident_budget))
      run_with project incident run_id budget
