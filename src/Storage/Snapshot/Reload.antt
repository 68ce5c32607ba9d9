-- ===== src/Storage/Snapshot/Reload.antt =====
-- backend/app/storage.py: what a later load gives back of the log of a saved run.
use remedy_graph.Prelude.{
  String, ◌≡◌, refl, ap, sym, ◌∙◌, some, Bool, arith, Option-cases, inl, inr, Dict, insert,
}
use mathlib.Core.Path.{subst}
use remedy_graph.Result.{result_cases, ok}
use remedy_graph.Models.{Incident}
use remedy_graph.Audit.Contracts.{RepositoryIndexMetadata, AuditRunSummary, AuditWorkflowState}
use remedy_graph.Storage.{Store, commit}
use remedy_graph.Storage.Records.{save_repository_index}
use remedy_graph.Storage.Budget.{get_incident_budget}
use remedy_graph.Storage.Guards.{get_run_summary}
use remedy_graph.Storage.Incidents.{get_incident, list_actions, sort_by, event_key}
use remedy_graph.Storage.Validate.{validate_audit_state, check_owner}
use remedy_graph.Storage.Snapshot.{write_snapshot, assemble, get_budget, load_run, load_audit_state}
use remedy_graph.Storage.Snapshot.Laws.{get_run_summary-write}
use remedy_graph.Storage.Snapshot.Rows.{select_rows-replaced}

-- A state that is loaded is assembled from the stored summary and an incident.
load_run-ok :
    (s : Store) (summary : AuditRunSummary) (state : AuditWorkflowState)
    → load_run s (some summary) ≡ ok (some state)
    → (incident : Incident) × (assemble s summary incident ≡ state)
unfolding load_run
load_run-ok s summary state h = elim (Option-cases (get_incident s summary.incident_id)) [
  | inl e ↦ absurd (ground arith)
  | inr (incident, e) ↦ (
    incident,
    elim (result_cases (validate_audit_state s (assemble s summary incident))) [
      | inl (z, f) ↦ absurd (ground arith)
      | inr (u, f) ↦ ground arith
    ],
  )
]

assemble-log :
    (state : AuditWorkflowState) (s : Store) (incident : Incident)
    → ((assemble (write_snapshot state s) state.summary incident).summary.id ≡ state.summary.id)
      × ((assemble (write_snapshot state s) state.summary incident).summary.status
          ≡ state.summary.status)
      × ((assemble (write_snapshot state s) state.summary incident).events
          ≡ sort_by event_key state.events)
unfolding assemble write_snapshot
assemble-log state s incident = (
  ground arith,
  ground arith,
  ap (sort_by event_key) (select_rows-replaced state.summary.id state.events s.workflow_events),
)

-- The log of a run, as it is loaded after a save.
pub load-write_log :
    (state loaded : AuditWorkflowState) (s : Store)
    → load_audit_state (write_snapshot state s) state.summary.id ≡ ok (some loaded)
    → (loaded.summary.id ≡ state.summary.id)
      × (loaded.summary.status ≡ state.summary.status)
      × (loaded.events ≡ sort_by event_key state.events)
unfolding load_audit_state
load-write_log state loaded s h =
    let t = write_snapshot state s in
    let found = sym (ap (load_run t) (get_run_summary-write state s)) ∙ h in
    let (incident, e) = load_run-ok t state.summary loaded found in
    ground (arith, e, assemble-log state s incident)

assemble-tables :
    (state : AuditWorkflowState) (s : Store) (incident : Incident)
    → assemble (write_snapshot state s) state.summary incident ≡ record state {
      summary = (assemble (write_snapshot state s) state.summary incident).summary;
      actions = (assemble (write_snapshot state s) state.summary incident).actions;
      events = sort_by event_key state.events;
    }
unfolding assemble write_snapshot
assemble-tables state s incident = rw (
  select_rows-replaced state.summary.id state.invariants s.compiled_invariants,
  select_rows-replaced state.summary.id state.check_specs s.deterministic_checks,
  select_rows-replaced state.summary.id state.evidence s.evidence,
  select_rows-replaced state.summary.id state.check_results s.deterministic_check_results,
  select_rows-replaced state.summary.id state.verdicts s.verdicts,
  select_rows-replaced state.summary.id state.graph_nodes s.evidence_graph_nodes,
  select_rows-replaced state.summary.id state.graph_edges s.evidence_graph_edges,
  select_rows-replaced state.summary.id state.events s.workflow_events,
)

-- The records of a run, as they are loaded after a save.
pub load-write_tables :
    (state loaded : AuditWorkflowState) (s : Store)
    → load_audit_state (write_snapshot state s) state.summary.id ≡ ok (some loaded)
    → loaded ≡ record state {
      summary = loaded.summary;
      actions = loaded.actions;
      events = sort_by event_key state.events;
    }
unfolding load_audit_state
load-write_tables state loaded s h =
    let t = write_snapshot state s in
    let found = sym (ap (load_run t) (get_run_summary-write state s)) ∙ h in
    let (incident, e) = load_run-ok t state.summary loaded found in
    subst
      (λ (x : AuditWorkflowState). x ≡ record state {
        summary = x.summary;
        actions = x.actions;
        events = sort_by event_key state.events;
      })
      e (assemble-tables state s incident)

load-indexed :
    (s : Store) (rows : Dict RepositoryIndexMetadata) (run : String)
    → load_audit_state (record s { repository_index_metadata = rows }) run ≡ load_audit_state s run
unfolding load_audit_state load_run get_run_summary get_incident list_actions assemble get_budget
    get_incident_budget validate_audit_state check_owner
load-indexed s rows run = refl

-- The index of a repository is no part of a run's snapshot.
pub load-save_repository_index :
    (accepts : Store → Bool) (metadata : RepositoryIndexMetadata) (s : Store) (run : String)
    → load_audit_state (save_repository_index accepts metadata s).1 run ≡ load_audit_state s run
unfolding save_repository_index commit
load-save_repository_index accepts metadata s run =
    ground (arith, load-indexed s (insert metadata.id metadata s.repository_index_metadata) run)
