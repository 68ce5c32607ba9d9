-- ===== src/Storage/Snapshot/Laws.antt =====
-- backend/app/storage.py: snapshots, what loading gives after a save.
use remedy_graph.Prelude.{
  String, ◌≡◌, ◌≢◌, refl, ◌∙◌, some, Bool, true, false, ◌==◌, eq_iff, arith, lookup-insert,
  lookup-insert_self, Option-cases, Bool-cases, inl, inr,
}
use remedy_graph.Result.{is_ok}
use remedy_graph.Models.{Incident}
use remedy_graph.Audit.Contracts.{AuditRunSummary, AuditWorkflowState}
use remedy_graph.Storage.{Store, commit}
use remedy_graph.Storage.Budget.{get_incident_budget}
use remedy_graph.Storage.Guards.{get_run_summary}
use remedy_graph.Storage.Incidents.{get_incident, list_actions}
use remedy_graph.Storage.Validate.{check_owner, validate_audit_state}
use remedy_graph.Storage.Snapshot.{
  write_snapshot, save_audit_state, get_budget, assemble, load_run, load_audit_state,
}
use remedy_graph.Storage.Snapshot.Rows.{select_rows-replaced_other}

module _ (accepts : Store → Bool) where
  -- A refused save leaves the store as it was.
  pub save_error_unchanged :
      (state : AuditWorkflowState) (s : Store)
      → is_ok (save_audit_state accepts state s).0 ≡ false
      → (save_audit_state accepts state s).1 ≡ s
  unfolding save_audit_state commit
  save_error_unchanged state s h = ground arith

  pub save-ok :
      (state : AuditWorkflowState) (s : Store)
      → is_ok (save_audit_state accepts state s).0 ≡ true
      → (is_ok (validate_audit_state s state) ≡ true)
        × ((save_audit_state accepts state s).1 ≡ write_snapshot state s)
  unfolding save_audit_state commit
  save-ok state s h = ground arith

-- the tables that a snapshot leaves alone
get_incident-write :
    (state : AuditWorkflowState) (s : Store) (k : String)
    → get_incident (write_snapshot state s) k ≡ get_incident s k
unfolding get_incident list_actions write_snapshot
get_incident-write state s k = refl

pub get_run_summary-write :
    (state : AuditWorkflowState) (s : Store)
    → get_run_summary (write_snapshot state s) state.summary.id ≡ some state.summary
unfolding get_run_summary write_snapshot
get_run_summary-write state s = lookup-insert_self state.summary.id state.summary s.audit_runs

projects-write :
    (state : AuditWorkflowState) (s : Store) → (write_snapshot state s).projects ≡ s.projects
unfolding write_snapshot
projects-write state s = refl

differ : (a b : String) → a ≢ b → (a == b) ≡ false
differ a b ne = ground (arith, eq_iff a b)

get_run_summary-write_other :
    (state : AuditWorkflowState) (s : Store) (other : String)
    → state.summary.id ≢ other
    → get_run_summary (write_snapshot state s) other ≡ get_run_summary s other
unfolding get_run_summary write_snapshot
get_run_summary-write_other state s other ne = ground (
  arith,
  eq_iff state.summary.id other,
  lookup-insert state.summary.id other state.summary s.audit_runs,
)

assemble-write_other :
    (state : AuditWorkflowState) (s : Store) (summary : AuditRunSummary) (incident : Incident)
    → state.summary.id ≢ summary.id
    → assemble (write_snapshot state s) summary incident ≡ assemble s summary incident
unfolding assemble write_snapshot get_budget get_incident_budget
assemble-write_other state s summary incident ne =
    let run = state.summary.id in
    rw (
      select_rows-replaced_other run summary.id state.invariants s.compiled_invariants ne,
      select_rows-replaced_other run summary.id state.check_specs s.deterministic_checks ne,
      select_rows-replaced_other run summary.id state.evidence s.evidence ne,
      select_rows-replaced_other run summary.id state.check_results s.deterministic_check_results
          ne,
      select_rows-replaced_other run summary.id state.verdicts s.verdicts ne,
      select_rows-replaced_other run summary.id state.graph_nodes s.evidence_graph_nodes ne,
      select_rows-replaced_other run summary.id state.graph_edges s.evidence_graph_edges ne,
      select_rows-replaced_other run summary.id state.events s.workflow_events ne,
      lookup-insert run summary.id state.summary.budget s.budget_counters,
      differ run summary.id ne,
    )

validate-write_other :
    (state st : AuditWorkflowState) (s : Store)
    → state.summary.id ≢ st.summary.id
    → validate_audit_state (write_snapshot state s) st ≡ validate_audit_state s st
unfolding validate_audit_state check_owner
validate-write_other state st s ne = rw (
  get_incident-write state s st.summary.incident_id,
  get_run_summary-write_other state s st.summary.id ne,
  projects-write state s,
)

-- the budgets that are read do not touch the id
assemble-id :
    (s : Store) (summary : AuditRunSummary) (incident : Incident)
    → (assemble s summary incident).summary.id ≡ summary.id
unfolding assemble
assemble-id s summary incident = ground arith

load_run-write_other :
    (state : AuditWorkflowState) (s : Store) (summary : AuditRunSummary)
    → state.summary.id ≢ summary.id
    → load_run (write_snapshot state s) (some summary) ≡ load_run s (some summary)
unfolding load_run
load_run-write_other state s summary ne = elim (Option-cases (get_incident s summary.incident_id)) [
  | inl e ↦ rw (get_incident-write state s summary.incident_id, e)
  | inr (i, e) ↦ rw (
    get_incident-write state s summary.incident_id,
    e,
    assemble-write_other state s summary i ne,
    validate-write_other state (assemble s summary i) s (λ p. ne (p ∙ assemble-id s summary i)),
  )
]

module _ (accepts : Store → Bool) where
  -- Saving a run changes nothing of what loading another run gives, if the stored summary of the
  -- other run has the id under which it is stored.
  pub load-save_other :
      (state : AuditWorkflowState) (s : Store) (other : String)
      → state.summary.id ≢ other
      → ((summary : AuditRunSummary) → get_run_summary s other ≡ some summary → summary.id ≡ other)
      → load_audit_state (save_audit_state accepts state s).1 other ≡ load_audit_state s other
  unfolding load_audit_state load_run
  load-save_other state s other ne keyed =
      elim (Bool-cases (is_ok (save_audit_state accepts state s).0)) [
        | inr e ↦ rw (save_error_unchanged accepts state s e)
        | inl e ↦
            rw ((save-ok accepts state s e).1, get_run_summary-write_other state s other ne)
              (elim (Option-cases (get_run_summary s other)) [
                | inl n ↦ rw n
                | inr (summary, n) ↦
                    rw n (load_run-write_other state s summary (λ p. ne (p ∙ keyed summary n)))
              ])
      ]
