-- ===== src/Audit/Workflow/Stages.antt =====
-- backend/app/audit/workflow.py: the seven stages, each an action that saves the state that it
-- returns. A list that a stage appends to while it is already in a saved state is passed along:
-- the state gets it anew before it is saved or returned, so the sharing is not seen.
use Prim.Native.String.{◌++◌ as ◌<>◌}
use remedy_graph.Prelude.{
  String, none, List, [], ◌∷◌, ◌++◌, map, filter, any, is_empty, Bool, ◌==◌, not, ◌&&◌, length,
  if◌then◌else◌,
}
use remedy_graph.Result.{value_error, raise_if}
use remedy_graph.Ids.{str}
use remedy_graph.Models.{RunStatus, Project}
use remedy_graph.Audit.Contracts.{
  CompiledInvariant, DeterministicCheckSpec, is_supported, stage_completed, budget_consumed,
  AuditWorkflowState,
}
use remedy_graph.Audit.Budget.{consume_investigation_round}
use remedy_graph.Audit.Compiler.{compile}
use remedy_graph.Audit.Compiler.Terms.{TextTools}
use remedy_graph.Audit.Graph.{build}
use remedy_graph.Storage.{Store}
use remedy_graph.Storage.Action.{Action, pure, lift, ◌>>=◌, ◌>>◌}
use remedy_graph.Storage.Snapshot.{save_audit_state}
use remedy_graph.Storage.Records.{save_repository_index}
use remedy_graph.Audit.Workflow.{
  Settings, Services, event, stage, with_usage, by_id, required_project, required_incident,
}
use remedy_graph.Audit.Workflow.Parts.{
  owned_by, is_test_protection, Progress, index_metadata, candidate_evidence, assign, run_records,
  with_verdicts, check_all,
}

module _ (accepts : Store → Bool) where
  -- self.store.save_audit_state(state), and the state
  unfoldable pub saved : AuditWorkflowState → Action AuditWorkflowState
  saved state = save_audit_state accepts state >> pure state

module _ (sha256_hex : String → String) (accepts : Store → Bool) where
  -- the event that ends a stage, and the save
  unfoldable pub completed : RunStatus → String → AuditWorkflowState → Action AuditWorkflowState
  unfolding saved
  completed status detail state =
      saved accepts (event sha256_hex stage_completed status detail state)

module _ (tools : TextTools) (sha256_hex : String → String) (services : Services)
    (settings : Settings) (accepts : Store → Bool) where
  unfoldable pub load_incident_actions : AuditWorkflowState → Action AuditWorkflowState
  unfolding completed
  load_incident_actions before = do
    let state = stage sha256_hex RunStatus.parsing before
    project ← required_project state.summary.project_id
    incident ← required_incident state.summary.incident_id
    lift (
        raise_if (not (owned_by incident.project_id project.id))
          (value_error "incident does not belong to audit project"))
    completed sha256_hex accepts RunStatus.parsing
        ("loaded " <> str (length incident.actions) <> " corrective action(s)")
        (record state { actions = incident.actions })

  unfoldable pub compile_invariants : AuditWorkflowState → Action AuditWorkflowState
  unfolding completed
  compile_invariants before =
      let state = stage sha256_hex RunStatus.compiling_invariants before in
      let result = compile tools sha256_hex state.actions in
      completed sha256_hex accepts RunStatus.compiling_invariants
        ("compiled " <> str (length result.invariants) <> " invariant(s)")
        (record state { invariants = result.invariants; check_specs = result.check_specs })

  -- the specifications of an invariant that can be checked
  unfoldable pub supported_specs :
      AuditWorkflowState → CompiledInvariant → List DeterministicCheckSpec
  supported_specs state invariant =
      filter
        (λ (c : DeterministicCheckSpec).
          c.invariant_id == invariant.id && is_supported c.availability)
        state.check_specs

  -- one pass of the loop over the invariants, for an invariant with specifications
  unfoldable pub retrieve_for :
      Project → List DeterministicCheckSpec → CompiledInvariant → Progress → Action Progress
  unfolding saved
  retrieve_for project specs invariant p = do
    let (reserved, tracker) = consume_investigation_round p.tracker invariant.id
    usage ← lift reserved
    state ← saved accepts (
        event sha256_hex budget_consumed RunStatus.indexing
          ("reserved investigation round for " <> invariant.id)
          (with_usage usage p.evidence p.state))
    candidates ← lift (
        services.search project invariant.original_action settings.retrieval_top_k
          (any (λ (c : DeterministicCheckSpec). is_test_protection c.check_type) specs))
    pure (record {
      tracker = tracker;
      state = state;
      evidence =
          p.evidence ++ map (candidate_evidence sha256_hex state.summary.id invariant) candidates;
    })

  unfoldable pub retrieve_all : Project → List CompiledInvariant → Progress → Action Progress
  retrieve_all project [] p = pure p
  retrieve_all project (invariant ∷ invariants) p =
      let specs = supported_specs p.state invariant in
      let one = if is_empty specs then pure p else retrieve_for project specs invariant p in
      one >>= retrieve_all project invariants

  unfoldable pub retrieve_candidates : AuditWorkflowState → Action AuditWorkflowState
  unfolding retrieve_all completed
  retrieve_candidates before = do
    let state = stage sha256_hex RunStatus.indexing before
    project ← required_project state.summary.project_id
    result ← lift (services.build_index project)
    save_repository_index accepts (index_metadata sha256_hex state project result)
    p ← retrieve_all project state.invariants (record {
      tracker = record { usage = state.summary.budget };
      state = state;
      evidence = state.evidence;
    })
    let evidence = by_id p.evidence
    completed sha256_hex accepts RunStatus.indexing
        ("indexed "
          <> str result.chunks_indexed
          <> " chunk(s) and retained "
          <> str (length evidence)
          <> " candidate(s)")
        (with_usage p.tracker.usage evidence p.state)

  unfoldable pub investigate_checks : AuditWorkflowState → Action AuditWorkflowState
  unfolding check_all completed
  investigate_checks before = do
    let state = stage sha256_hex RunStatus.investigating before
    project ← required_project state.summary.project_id
    p ← lift (
        check_all services state project state.check_specs (record {
          tracker = record { usage = state.summary.budget };
          evidence = state.evidence;
          results = state.check_results;
        }))
    completed sha256_hex accepts RunStatus.investigating
        ("ran " <> str (length p.results) <> " deterministic check(s)")
        (record (with_usage p.tracker.usage (by_id p.evidence) state) { check_results = p.results })

  unfoldable pub assign_verdicts : AuditWorkflowState → Action AuditWorkflowState
  unfolding completed
  assign_verdicts before = do
    let state = stage sha256_hex RunStatus.verifying before
    verdicts ← lift (assign sha256_hex state)
    completed sha256_hex accepts RunStatus.verifying
        ("assigned " <> str (length verdicts) <> " conservative verdict(s)")
        (with_verdicts verdicts state)

  unfoldable pub build_evidence_graph : AuditWorkflowState → Action AuditWorkflowState
  unfolding completed
  build_evidence_graph state = do
    incident ← required_incident state.summary.incident_id
    graph ← lift (build sha256_hex (run_records state incident))
    completed sha256_hex accepts RunStatus.verifying
        ("built evidence graph with "
          <> str (length graph.0)
          <> " node(s) and "
          <> str (length graph.1)
          <> " edge(s)")
        (record state { graph_nodes = graph.0; graph_edges = graph.1 })

  unfoldable pub persist_completion : AuditWorkflowState → Action AuditWorkflowState
  unfolding completed
  persist_completion state =
      completed sha256_hex accepts RunStatus.complete "audit completed" (record state {
        summary = record state.summary {
          status = RunStatus.complete;
          failure_code = none;
          error = none;
        };
      })
