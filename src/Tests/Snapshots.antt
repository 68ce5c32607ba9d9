-- ===== src/Tests/Snapshots.antt =====
-- A snapshot of a run of the sample incident, saved and loaded.
use remedy_graph.Prelude.{
  String, ◌≡◌, refl, sym, ap, Option, none, some, List, [], ◌∷◌, Bool, true, arith, eq_iff, lookup,
}
use remedy_graph.Result.{is_ok}
use remedy_graph.Models.{Project, RunStatus, EvidenceKind}
use remedy_graph.Audit.Contracts.{
  AuditRunSummary, AuditWorkflowState, WorkflowEvent, WorkflowEventType, EvidenceRole,
}
use remedy_graph.Storage.{Store, commit}
use remedy_graph.Storage.Budget.{fresh_usage}
use remedy_graph.Storage.Guards.{get_run_summary}
use remedy_graph.Storage.Incidents.{get_incident, list_actions, sort_by}
use remedy_graph.Storage.Validate.{
  validate_audit_state, check_owner, check_records, check_outcomes, check_verdicts, check_graph,
  same_actions, require_unique,
}
use remedy_graph.Storage.Snapshot.{save_audit_state, load_audit_state}
use remedy_graph.Storage.Snapshot.Laws.{load-save_other, save_error_unchanged}
use remedy_graph.Tests.Samples.{cap_retries, outage, invariant_sample, evidence_sample}

abbrev summary : AuditRunSummary
summary = record {
  id = "run";
  project_id = "p1";
  incident_id = "inc";
  status = RunStatus.verifying;
  total_actions = 1;
  completed_actions = 0;
  verdict_counts = [];
  assessed_protection_coverage = 0;
  budget = fresh_usage 6;
  failure_code = none;
  error = none;
}

abbrev event : WorkflowEvent
event = record {
  id = "w0";
  run_id = "run";
  sequence = 0;
  event_type = WorkflowEventType.stage_started;
  stage = RunStatus.verifying;
  detail = "verifying";
}

abbrev pub state : AuditWorkflowState
state = record {
  summary = summary;
  actions = cap_retries ∷ [];
  invariants = invariant_sample ∷ [];
  check_specs = [];
  evidence = evidence_sample "e1" EvidenceKind.code EvidenceRole.supporting ∷ [];
  check_results = [];
  verdicts = [];
  graph_nodes = [];
  graph_edges = [];
  events = event ∷ [];
}

abbrev pub project : Project
project = record { id = "p1"; name = "shop"; repository_path = "shop"; index_version = "1" }

abbrev empty_store : List (String × Project) → Store
empty_store projects = record {
  projects = projects;
  incidents = ("inc", outage) ∷ [];
  corrective_actions = ("a1", cap_retries) ∷ [];
  repository_index_metadata = [];
  incident_budget_counters = [];
  audit_runs = ("run2", record summary { id = "run2" }) ∷ [];
  compiled_invariants = [];
  deterministic_checks = [];
  evidence = [];
  deterministic_check_results = [];
  verdicts = [];
  evidence_graph_nodes = [];
  evidence_graph_edges = [];
  workflow_events = [];
  budget_counters = [];
  guard_specs = [];
  guard_approvals = [];
  guard_executions = [];
}

abbrev pub store : Store
store = empty_store (("p1", project) ∷ [])

abbrev pub accept_all : Store → Bool
accept_all s = true

abbrev id_of : Option AuditRunSummary → String
id_of none = ""
id_of (some s) = s.id

saved : is_ok (save_audit_state accept_all state store).0 ≡ true
unfolding save_audit_state validate_audit_state check_owner lookup get_incident get_run_summary
    check_records require_unique same_actions list_actions sort_by check_outcomes check_verdicts
    check_graph commit
saved = refl

load-save_other_example :
    load_audit_state (save_audit_state accept_all state store).1 "run2"
    ≡ load_audit_state store "run2"
unfolding get_run_summary lookup
load-save_other_example =
    load-save_other accept_all state store "run2" (ground (arith, eq_iff "run" "run2"))
      (λ s h. sym (ap id_of h))

save_error_unchanged_example :
    (save_audit_state accept_all state (empty_store [])).1 ≡ empty_store []
unfolding save_audit_state validate_audit_state check_owner lookup
save_error_unchanged_example = save_error_unchanged accept_all state (empty_store []) refl
