-- ===== src/Audit/Workflow/Judging.antt =====
-- backend/app/audit/workflow.py: the stages from the checks to the completion as steps of a run.
use mathlib.Core.Path.{subst}
use remedy_graph.Prelude.{sym, ap, ◌∙◌, lookup, index_by, Option-cases, append_assoc, append_nil}
use remedy_graph.Audit.Contracts.{CompiledInvariant, DeterministicCheckResult, CheckExecution}
use remedy_graph.Audit.Workflow.Keeps.{ok-injective}
use remedy_graph.Audit.Workflow.Facts.{AreResults}
use remedy_graph.Prelude.{[], String, ◌≡◌, refl, List, Bool}
use remedy_graph.Audit.Workflow.{required_project, required_incident}
use remedy_graph.Audit.Workflow.Keeps.{Keeps-project, Keeps-incident}
use remedy_graph.Audit.Workflow.Log.{IsLogged-status}
use remedy_graph.Audit.Workflow.Machine.{enter_investigating, enter_verifying}
use remedy_graph.Prelude.{◌∷◌}
use remedy_graph.Audit.Contracts.{DeterministicCheckSpec}
use remedy_graph.Audit.Workflow.{with_usage, by_id}
use remedy_graph.Storage.Action.{lift}
use remedy_graph.Prelude.{none, inl, inr, arith, ◌++◌}
use remedy_graph.Result.{ok, result_cases}
use remedy_graph.Audit.Budget.{record_check}
use remedy_graph.Audit.Graph.{build}
use remedy_graph.Audit.Workflow.Parts.{
  Checked, execute_spec, check_all, assign, run_records, with_verdicts,
}
use remedy_graph.Audit.Workflow.Stages.{
  investigate_checks, assign_verdicts, build_evidence_graph, persist_completion,
}
use remedy_graph.Audit.Workflow.Machine.{mapped, done}
use remedy_graph.Audit.Workflow.Keeps.{Ends}
use remedy_graph.Audit.Workflow.Preparing.{Ends-completed}
use remedy_graph.Models.{Project}
use remedy_graph.Models.{RunStatus}
use remedy_graph.Audit.Contracts.{AuditWorkflowState}
use remedy_graph.Audit.Compiler.Terms.{TextTools}
use remedy_graph.Storage.{Store}
use remedy_graph.Audit.Workflow.{
  Settings, Services, event, stage, required_project, required_incident,
}
use remedy_graph.Audit.Workflow.Machine.{settled, maps, completes, status_of}
use remedy_graph.Audit.Workflow.Log.{IsLogged, stage-IsLogged}
use remedy_graph.Audit.Workflow.Keeps.{Keeps, Keeps-lift, Keeps-bind}
use remedy_graph.Audit.Workflow.Facts.{IsCompiled, IsChecked, IsJudged, IsMapped}
use remedy_graph.Audit.Workflow.Preparing.{Keeps-completed, Keeps-finished}

-- the result of one check
execute_spec-AreResults :
    (services : Services) (state : AuditWorkflowState) (project : Project)
    (spec : DeterministicCheckSpec) (x : CheckExecution)
    → execute_spec services state project spec ≡ ok x
    → AreResults services project state.summary.id state.invariants (spec ∷ []) (x.result ∷ [])
unfolding execute_spec
execute_spec-AreResults services state project spec x h =
    elim (Option-cases
      (lookup spec.invariant_id (index_by (λ (i : CompiledInvariant). i.id) state.invariants))) [
        | inl e ↦ absurd (ground arith)
        | inr (i, e) ↦ ((i, x, e, ground arith, refl), tt)
      ]

-- the results that the loop appends
check_all-AreResults :
    (services : Services) (state : AuditWorkflowState) (project : Project)
    (specs : List DeterministicCheckSpec) (p q : Checked)
    → check_all services state project specs p ≡ ok q
    → (rs : List DeterministicCheckResult) × (q.results ≡ p.results ++ rs)
      × AreResults services project state.summary.id state.invariants specs rs
unfolding check_all
check_all-AreResults services state project [] p q h = (
  [],
  ap (λ (c : Checked). c.results) (sym (ok-injective p q h)) ∙ sym (append_nil p.results),
  tt,
)
check_all-AreResults services state project (spec ∷ specs) p q h =
    elim (result_cases (execute_spec services state project spec)) [
      | inl (z, e) ↦ absurd (ground arith)
      | inr (x, e) ↦
          let next : Checked = record {
            tracker = (record_check p.tracker).1;
            evidence = p.evidence ++ x.evidence;
            results = p.results ++ x.result ∷ [];
          } in
          let (rs, same, are) =
            check_all-AreResults services state project specs next q (ground arith) in
          let one = execute_spec-AreResults services state project spec x e in
          (x.result ∷ rs, same ∙ append_assoc p.results (x.result ∷ []) rs, (one.0, are))
    ]

check_all-first :
    (services : Services) (state : AuditWorkflowState) (project : Project)
    (specs : List DeterministicCheckSpec) (p q : Checked)
    → p.results ≡ []
    → check_all services state project specs p ≡ ok q
    → AreResults services project state.summary.id state.invariants specs q.results
check_all-first services state project specs p q e h =
    let (rs, same, are) = check_all-AreResults services state project specs p q h in
    subst (AreResults services project state.summary.id state.invariants specs)
      (sym (same ∙ ap (λ xs. xs ++ rs) e)) are

module _ (tools : TextTools) (sha256_hex : String → String) (services : Services)
    (settings : Settings) (accepts : Store → Bool) (run : String) (first : Store) where
  pub Keeps-investigate :
      (state : AuditWorkflowState)
      → IsLogged run (settled RunStatus.indexing) state
      → IsCompiled tools sha256_hex services first state
      → Keeps run first
          (λ t.
            IsLogged run (settled RunStatus.investigating) t
            × IsChecked tools sha256_hex services first t)
          (investigate_checks tools sha256_hex services settings accepts state)
  unfolding investigate_checks IsLogged stage event IsCompiled IsChecked
  Keeps-investigate state h f =
      let begun = stage sha256_hex RunStatus.investigating state in
      Keeps-bind run first (required_project begun.summary.project_id) _ (Keeps-project run first _)
        (λ project found.
          let start : Checked = record {
            tracker = record { usage = begun.summary.budget };
            evidence = begun.evidence;
            results = begun.check_results;
          } in
          let checked = check_all services begun project begun.check_specs start in
          Keeps-bind run first (lift checked) _ (Keeps-lift run first checked) (λ p e.
            Keeps-finished sha256_hex accepts run first (IsChecked tools sha256_hex services first)
              RunStatus.investigating _
              (record (with_usage p.tracker.usage (by_id p.evidence) begun) {
                check_results = p.results;
              })
              (stage-IsLogged sha256_hex run state h enter_investigating)
              (
                f.0,
                project,
                found,
                check_all-first services begun project begun.check_specs start p f.1 e,
              )))

  pub Keeps-assign :
      (state : AuditWorkflowState)
      → IsLogged run (settled RunStatus.investigating) state
      → IsChecked tools sha256_hex services first state
      → Keeps run first
          (λ t.
            IsLogged run (settled RunStatus.verifying) t
            × IsJudged tools sha256_hex services first t)
          (assign_verdicts tools sha256_hex services settings accepts state)
  unfolding assign_verdicts IsLogged stage event with_verdicts assign IsChecked IsJudged
  Keeps-assign state h f =
      let begun = stage sha256_hex RunStatus.verifying state in
      Keeps-bind run first (lift (assign sha256_hex begun)) _
        (Keeps-lift run first (assign sha256_hex begun))
        (λ verdicts e.
          Keeps-finished sha256_hex accepts run first (IsJudged tools sha256_hex services first)
            RunStatus.verifying _ (with_verdicts verdicts begun)
            (stage-IsLogged sha256_hex run state h enter_verifying) (f, e, refl))

  pub Keeps-graph :
      (state : AuditWorkflowState)
      → IsLogged run (settled RunStatus.verifying) state
      → IsJudged tools sha256_hex services first state
      → Keeps run first
          (λ t. IsLogged run mapped t × IsMapped tools sha256_hex services first t)
          (build_evidence_graph tools sha256_hex services settings accepts state)
  unfolding build_evidence_graph IsLogged event assign run_records IsChecked IsJudged IsMapped
      status_of
  Keeps-graph state h f =
      Keeps-bind run first (required_incident state.summary.incident_id) _
        (Keeps-incident run first _)
        (λ incident found.
          let graph = build sha256_hex (run_records state incident) in
          Keeps-bind run first (lift graph) _ (Keeps-lift run first graph) (λ g e.
            Keeps-completed sha256_hex accepts run first (IsMapped tools sha256_hex services first)
              (settled RunStatus.verifying) mapped state.summary.status RunStatus.verifying _
              (record state { graph_nodes = g.0; graph_edges = g.1 }) refl h maps
              (IsLogged-status run (settled RunStatus.verifying) state h) (f, incident, found, e)))

  pub Ends-completion :
      (state : AuditWorkflowState)
      → IsLogged run mapped state
      → IsMapped tools sha256_hex services first state
      → Ends run first
          (λ t. IsLogged run done t × IsMapped tools sha256_hex services first t)
          (persist_completion tools sha256_hex services settings accepts state)
  unfolding persist_completion IsLogged event assign run_records IsChecked IsJudged IsMapped
      status_of
  Ends-completion state h f =
      Ends-completed sha256_hex accepts run first (IsMapped tools sha256_hex services first) mapped
        done state.summary.status RunStatus.complete _
        (record state {
          summary = record state.summary {
            status = RunStatus.complete;
            failure_code = none;
            error = none;
          };
        })
        h completes refl f
