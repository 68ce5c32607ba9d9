-- ===== src/Storage/Snapshot.antt =====
-- backend/app/storage.py: `save_audit_state` and `load_audit_state`.
pub mod Rows
pub mod Laws
pub mod Reload
use remedy_graph.Prelude.{
  String, Option, none, some, List, Bool, true, false, Dict, lookup, insert, if◌then◌else◌,
}
use remedy_graph.Result.{state_integrity, Result, ok, err, or_raise, ◌>>=◌, ◌>>◌}
use remedy_graph.Models.{Incident}
use remedy_graph.Audit.Contracts.{BudgetUsage, AuditRunSummary, AuditWorkflowState}
use remedy_graph.Storage.{Store, delete_run, insert_rows, select_rows, commit}
use remedy_graph.Storage.Budget.{get_incident_budget}
use remedy_graph.Storage.Guards.{get_run_summary}
use remedy_graph.Storage.Incidents.{get_incident, sort_by, event_key}
use remedy_graph.Storage.Validate.{validate_audit_state}

-- The statements of the transaction. DELETE and INSERT of the one row of `budget_counters` are one
-- `insert`: no query reads the order of its rows.
unfoldable pub write_snapshot : AuditWorkflowState → Store → Store
write_snapshot state s =
    let run = state.summary.id in
    record s {
      audit_runs = insert run state.summary s.audit_runs;
      compiled_invariants = insert_rows run state.invariants (delete_run run s.compiled_invariants);
      deterministic_checks =
          insert_rows run state.check_specs (delete_run run s.deterministic_checks);
      evidence = insert_rows run state.evidence (delete_run run s.evidence);
      deterministic_check_results =
          insert_rows run state.check_results (delete_run run s.deterministic_check_results);
      verdicts = insert_rows run state.verdicts (delete_run run s.verdicts);
      evidence_graph_nodes =
          insert_rows run state.graph_nodes (delete_run run s.evidence_graph_nodes);
      evidence_graph_edges =
          insert_rows run state.graph_edges (delete_run run s.evidence_graph_edges);
      workflow_events = insert_rows run state.events (delete_run run s.workflow_events);
      budget_counters = insert run state.summary.budget s.budget_counters;
    }

module _ (accepts : Store → Bool) where
  -- with the outcome of the validation
  abbrev pub write_valid :
      Result (Unit {0}) → AuditWorkflowState → Store → Result (Unit {0}) × Store
  write_valid (err e) state s = (err e, s)
  write_valid (ok u) state s =
      commit accepts (state_integrity "audit snapshot violates persistence integrity") tt s
        (write_snapshot state s)

  unfoldable pub save_audit_state : AuditWorkflowState → Store → Result (Unit {0}) × Store
  save_audit_state state s = write_valid (validate_audit_state s state) state s

unfoldable pub get_budget : Store → String → Option BudgetUsage
get_budget s run_id = lookup run_id s.budget_counters

abbrev pub with_budget : Option BudgetUsage → AuditRunSummary → AuditRunSummary
with_budget none summary = summary
with_budget (some budget) summary = record summary { budget = budget }

abbrev pub with_incident_budget : Option BudgetUsage → AuditRunSummary → AuditRunSummary
with_incident_budget none summary = summary
with_incident_budget (some usage) summary =
    let budget = record summary.budget {
      model_calls_used = usage.model_calls_used;
      model_calls_limit = usage.model_calls_limit;
    } in
    record summary { budget = budget }

-- what `load_audit_state` reads, before it validates
unfoldable pub assemble : Store → AuditRunSummary → Incident → AuditWorkflowState
assemble s summary incident =
    let run = summary.id in
    record {
      summary =
          with_incident_budget (get_incident_budget s summary.incident_id)
            (with_budget (get_budget s run) summary);
      actions = incident.actions;
      invariants = select_rows run s.compiled_invariants;
      check_specs = select_rows run s.deterministic_checks;
      evidence = select_rows run s.evidence;
      check_results = select_rows run s.deterministic_check_results;
      verdicts = select_rows run s.verdicts;
      graph_nodes = select_rows run s.evidence_graph_nodes;
      graph_edges = select_rows run s.evidence_graph_edges;
      events = sort_by event_key (select_rows run s.workflow_events);
    }

-- for the summary that was found
unfoldable pub load_run : Store → Option AuditRunSummary → Result (Option AuditWorkflowState)
load_run s none = ok none
load_run s (some summary) = do
  incident ←
      or_raise (get_incident s summary.incident_id)
        (state_integrity "persisted audit references a missing incident")
  let state = assemble s summary incident
  validate_audit_state s state
  ok (some state)

unfoldable pub load_audit_state : Store → String → Result (Option AuditWorkflowState)
unfolding load_run
load_audit_state s run_id = load_run s (get_run_summary s run_id)
