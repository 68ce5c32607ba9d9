-- ===== src/Audit/Workflow/Facts.antt =====
-- backend/app/audit/workflow.py: what a state holds as the stages go on.
use remedy_graph.Prelude.{List, [], ◌∷◌, String, some, ◌≡◌, length, lookup, index_by}
use remedy_graph.Result.{ok}
use remedy_graph.Models.{RunStatus, Project, Incident}
use remedy_graph.Audit.Contracts.{
  WorkflowEventType, AuditWorkflowState, CompiledInvariant, DeterministicCheckSpec,
  DeterministicCheckResult, CheckExecution,
}
use remedy_graph.Storage.{Store}
use remedy_graph.Storage.Incidents.{get_incident}
use remedy_graph.Storage.Records.{get_project}
use remedy_graph.Audit.Compiler.{compile}
use remedy_graph.Audit.Compiler.Terms.{TextTools}
use remedy_graph.Audit.Graph.{build}
use remedy_graph.Audit.Workflow.{Services, event}
use remedy_graph.Audit.Workflow.Parts.{assign, run_records}

-- Each result is the one that the runner gives for the check at its place, with the action of the
-- requirement that the check belongs to.
abbrev pub AreResults :
    Services
    → Project
    → String
    → List CompiledInvariant
    → List DeterministicCheckSpec
    → List DeterministicCheckResult
    → Type 0
AreResults services project run invariants [] [] = Unit
AreResults services project run invariants (c ∷ cs) (r ∷ rs) =
    ((i : CompiledInvariant) × (x : CheckExecution) × (lookup c.invariant_id
          (index_by (λ (j : CompiledInvariant). j.id) invariants)
        ≡ some i)
      × (services.run_check project c run i.action_id ≡ ok x)
      × (r ≡ x.result))
    × AreResults services project run invariants cs rs
AreResults services project run invariants _ _ = ⊥

module _ (tools : TextTools) (sha256_hex : String → String) (services : Services)
    (first : Store) where
  -- the requirements and checks are the compiler's
  unfoldable pub HasInvariants : AuditWorkflowState → Type 0
  HasInvariants state =
      (state.invariants ≡ (compile tools sha256_hex state.actions).invariants)
      × (state.check_specs ≡ (compile tools sha256_hex state.actions).check_specs)

  unfoldable pub IsCompiled : AuditWorkflowState → Type 0
  unfolding HasInvariants
  IsCompiled state = HasInvariants state × (state.check_results ≡ [])

  -- every check has run, on the project of the run
  unfoldable pub IsChecked : AuditWorkflowState → Type 0
  unfolding HasInvariants
  IsChecked state =
      HasInvariants state
      × (project : Project) × (get_project first state.summary.project_id ≡ some project)
      × AreResults services project state.summary.id state.invariants state.check_specs
          state.check_results

  -- the verdicts are the verifier's on the records of the state
  unfoldable pub IsJudged : AuditWorkflowState → Type 0
  unfolding IsChecked
  IsJudged state =
      IsChecked state
      × (assign sha256_hex state ≡ ok state.verdicts)
      × (state.summary.completed_actions ≡ length state.verdicts)

  -- the graph is the builder's on the records of the state and its incident
  unfoldable pub IsMapped : AuditWorkflowState → Type 0
  unfolding IsJudged
  IsMapped state =
      IsJudged state
      × (incident : Incident) × (get_incident first state.summary.incident_id ≡ some incident)
      × (build sha256_hex (run_records state incident) ≡ ok (state.graph_nodes, state.graph_edges))

  module _ (event_type : WorkflowEventType) (status : RunStatus) (detail : String)
      (state : AuditWorkflowState) where
    pub event-IsCompiled :
        IsCompiled state → IsCompiled (event sha256_hex event_type status detail state)
    unfolding IsCompiled event
    event-IsCompiled h = h

    pub event-IsChecked :
        IsChecked state → IsChecked (event sha256_hex event_type status detail state)
    unfolding IsChecked event
    event-IsChecked h = h

    pub event-IsJudged : IsJudged state → IsJudged (event sha256_hex event_type status detail state)
    unfolding IsJudged IsChecked event assign
    event-IsJudged h = h

    pub event-IsMapped : IsMapped state → IsMapped (event sha256_hex event_type status detail state)
    unfolding IsMapped IsJudged IsChecked event assign run_records
    event-IsMapped h = h
