-- ===== src/Audit/Workflow/Indexing.antt =====
-- backend/app/audit/workflow.py: the retrieval of candidates as a step of a run.
use Prim.Native.String.{◌++◌ as ◌<>◌}
use mathlib.Core.Path.{subst}
use remedy_graph.Prelude.{sym, [], String, refl, List, Bool}
use remedy_graph.Audit.Workflow.{required_project}
use remedy_graph.Audit.Workflow.Keeps.{Keeps-project}
use remedy_graph.Audit.Workflow.Log.{IsLogged-status}
use remedy_graph.Audit.Workflow.Machine.{enter_indexing}
use remedy_graph.Audit.Workflow.Keeps.{Keeps-if}
use remedy_graph.Prelude.{◌∷◌, is_empty, any, if◌then◌else◌}
use remedy_graph.Audit.Contracts.{
  BudgetUsage, EvidenceRecord, CompiledInvariant, DeterministicCheckSpec, budget_consumed,
}
use remedy_graph.Audit.Budget.{consume_investigation_round}
use remedy_graph.Audit.Workflow.{with_usage, by_id}
use remedy_graph.Audit.Workflow.Parts.{Progress, is_test_protection, index_metadata}
use remedy_graph.Audit.Workflow.Stages.{
  retrieve_for, retrieve_all, retrieve_candidates, supported_specs,
}
use remedy_graph.Storage.Records.{save_repository_index}
use remedy_graph.Storage.Action.{pure, lift}
use remedy_graph.Models.{Project}
use remedy_graph.Models.{RunStatus}
use remedy_graph.Audit.Contracts.{AuditWorkflowState}
use remedy_graph.Audit.Compiler.Terms.{TextTools}
use remedy_graph.Storage.{Store}
use remedy_graph.Audit.Workflow.{Settings, Services, event, stage, required_project}
use remedy_graph.Audit.Workflow.Machine.{active, settled, charges}
use remedy_graph.Audit.Workflow.Log.{IsLogged, event-IsLogged, stage-IsLogged}
use remedy_graph.Audit.Workflow.Keeps.{
  Keeps, Keeps-pure, Keeps-lift, Keeps-bind, Keeps-saved, Keeps-index,
}
use remedy_graph.Audit.Workflow.Facts.{IsCompiled}
use remedy_graph.Audit.Workflow.Stages.{saved}
use remedy_graph.Audit.Workflow.Preparing.{Keeps-finished}

module _ (tools : TextTools) (sha256_hex : String → String) (services : Services)
    (settings : Settings) (accepts : Store → Bool) (run : String) (first : Store) where
  -- a state while the repository is indexed
  IsIndexing : AuditWorkflowState → Type 0
  IsIndexing state =
      IsLogged run (active RunStatus.indexing) state
      × IsCompiled tools sha256_hex services first state

  indexing-event :
      (usage : BudgetUsage) (evidence : List EvidenceRecord) (detail : String)
      (state : AuditWorkflowState)
      → IsIndexing state
      → IsIndexing (
          event sha256_hex budget_consumed RunStatus.indexing detail
            (with_usage usage evidence state))
  unfolding IsIndexing IsLogged IsCompiled event
  indexing-event usage evidence detail state (h, f) = (
    event-IsLogged sha256_hex run detail (with_usage usage evidence state) state.summary.status h
        charges (IsLogged-status run (active RunStatus.indexing) state h),
    f,
  )

  Keeps-retrieve_for :
      (project : Project) (specs : List DeterministicCheckSpec) (invariant : CompiledInvariant)
      (p : Progress)
      → IsIndexing p.state
      → Keeps run first
          (λ q. IsIndexing q.state)
          (retrieve_for tools sha256_hex services settings accepts project specs invariant p)
  unfolding retrieve_for IsIndexing
  Keeps-retrieve_for project specs invariant p h =
      let reserved = (consume_investigation_round p.tracker invariant.id).0 in
      Keeps-bind run first (lift reserved) _ (Keeps-lift run first reserved) (λ usage _.
        let t =
          event sha256_hex budget_consumed RunStatus.indexing
            ("reserved investigation round for " <> invariant.id)
            (with_usage usage p.evidence p.state) in
        let next = indexing-event usage p.evidence _ p.state h in
        Keeps-bind run first (saved accepts t) _ (Keeps-saved run first accepts _ t refl next.0)
          (λ state e.
            let found =
              services.search project invariant.original_action settings.retrieval_top_k
                (any (λ (c : DeterministicCheckSpec). is_test_protection c.check_type) specs) in
            Keeps-bind run first (lift found) _ (Keeps-lift run first found)
              (λ candidates _. Keeps-pure run first _ (subst IsIndexing (sym e) next))))

  Keeps-retrieve_all :
      (project : Project) (invariants : List CompiledInvariant) (p : Progress)
      → IsIndexing p.state
      → Keeps run first
          (λ q. IsIndexing q.state)
          (retrieve_all tools sha256_hex services settings accepts project invariants p)
  unfolding retrieve_all
  Keeps-retrieve_all project [] p h = Keeps-pure run first p h
  Keeps-retrieve_all project (invariant ∷ invariants) p h =
      let specs = supported_specs tools sha256_hex services settings accepts p.state invariant in
      Keeps-bind run first
        (if is_empty specs
          then pure p
          else retrieve_for tools sha256_hex services settings accepts project specs invariant p)
        _
        (Keeps-if run first (is_empty specs) _ _ (Keeps-pure run first p h)
          (Keeps-retrieve_for project specs invariant p h))
        (λ q. Keeps-retrieve_all project invariants q)

  pub Keeps-retrieve :
      (state : AuditWorkflowState)
      → IsLogged run (settled RunStatus.compiling_invariants) state
      → IsCompiled tools sha256_hex services first state
      → Keeps run first
          (λ t.
            IsLogged run (settled RunStatus.indexing) t
            × IsCompiled tools sha256_hex services first t)
          (retrieve_candidates tools sha256_hex services settings accepts state)
  unfolding retrieve_candidates IsIndexing IsLogged stage event IsCompiled
  Keeps-retrieve state h f =
      let begun = stage sha256_hex RunStatus.indexing state in
      Keeps-bind run first (required_project begun.summary.project_id) _ (Keeps-project run first _)
        (λ project _.
          Keeps-bind run first (lift (services.build_index project)) _
            (Keeps-lift run first (services.build_index project))
            (λ result _.
              Keeps-bind run first
                (save_repository_index accepts (index_metadata sha256_hex begun project result)) _
                (Keeps-index run first accepts _)
                (λ u _.
                  let start : Progress = record {
                    tracker = record { usage = begun.summary.budget };
                    state = begun;
                    evidence = begun.evidence;
                  } in
                  Keeps-bind run first
                    (retrieve_all tools sha256_hex services settings accepts project
                      begun.invariants start)
                    _
                    (Keeps-retrieve_all project begun.invariants start
                      (stage-IsLogged sha256_hex run state h enter_indexing, f))
                    (λ p h.
                      Keeps-finished sha256_hex accepts run first
                        (IsCompiled tools sha256_hex services first) RunStatus.indexing _
                        (with_usage p.tracker.usage (by_id p.evidence) p.state) h.0 h.1))))
