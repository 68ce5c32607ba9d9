-- ===== src/Audit/Workflow/Laws.antt =====
-- backend/app/audit/workflow.py: `run`, for a run id that is new, with a graph that runs its nodes in
-- order.
use remedy_graph.Prelude.{
  ◌<◌, String, some, none, List, [], ◌∷◌, ◌≡◌, ◌≢◌, refl, sym, ◌∙◌, ◌⊎◌, inl, inr, arith, Bool,
}
use remedy_graph.Result.{Error, value_error, err, ok}
use remedy_graph.Models.{RunStatus, Project, Incident}
use remedy_graph.Audit.Contracts.{AuditWorkflowState, BudgetUsage, usage_does_not_exceed_limits}
use remedy_graph.Audit.Compiler.Terms.{TextTools}
use remedy_graph.Storage.{Store}
use remedy_graph.Storage.Budget.{get_incident_budget, validated}
use remedy_graph.Storage.Guards.{get_run_summary}
use remedy_graph.Audit.Workflow.{Settings, Services}
use remedy_graph.Audit.Workflow.Machine.{done, stopped, status_of, started, started-Log}
use remedy_graph.Audit.Workflow.Log.{moves, IsLogged, HasLog, IsLogged-status}
use remedy_graph.Audit.Workflow.Facts.{IsMapped}
use remedy_graph.Audit.Workflow.Outcome.{TellsOf, IsEnd, run-IsEnd}
use remedy_graph.Audit.Workflow.Run.{Node, in_order, run, initial_budget}

IsLogged-started :
    (run : String) (state : AuditWorkflowState)
    → IsLogged run done state
    → started (moves state.events)
      ≡ RunStatus.parsing ∷ RunStatus.compiling_invariants ∷ RunStatus.indexing
        ∷ RunStatus.investigating ∷ RunStatus.verifying ∷ []
unfolding IsLogged HasLog
IsLogged-started run state h = started-Log h.2 refl

failed_not_complete : status_of stopped ≢ RunStatus.complete
unfolding status_of
failed_not_complete h = ground arith

module _ (tools : TextTools) (sha256_hex : String → String) (services : Services)
    (settings : Settings) (accepts : Store → Bool) (invoke : List Node → Node)
    (invoke_in_order : (ns : List Node) (state : AuditWorkflowState)
      → invoke ns state ≡ in_order ns state) where
  -- The log of the state that a run returns is that of the machine, from its first phase to `done`,
  -- or to `stopped` with the code and the name of an exception.
  pub run_refines :
      (project : Project) (incident : Incident) (run_id : String) (s : Store)
      (state : AuditWorkflowState)
      → get_run_summary s run_id ≡ none
      → (run tools sha256_hex services settings accepts invoke project incident run_id s).0
        ≡ ok state
      → IsLogged run_id done state ⊎ (IsLogged run_id stopped state × (e : Error) × TellsOf e state)
  unfolding IsEnd
  run_refines project incident run_id s state fresh h =
      elim (run-IsEnd tools sha256_hex services settings accepts run_id s invoke invoke_in_order
        project incident s state fresh (λ id. refl, λ id. refl) h) [
          | inl x ↦ inl x.0
          | inr x ↦ inr x
        ]

  -- A run that returns with the status COMPLETE has started the five stages, each once and in order,
  -- and its requirements, checks, verdicts and graph are those of the compiler, the verifier and the
  -- graph builder on its own records and the stored incident; its results are those of the runner on
  -- the stored project, one for each check in the order of the checks.
  pub run_complete :
      (project : Project) (incident : Incident) (run_id : String) (s : Store)
      (state : AuditWorkflowState)
      → get_run_summary s run_id ≡ none
      → (run tools sha256_hex services settings accepts invoke project incident run_id s).0
        ≡ ok state
      → state.summary.status ≡ RunStatus.complete
      → IsMapped tools sha256_hex services s state
        × (started (moves state.events)
            ≡ RunStatus.parsing ∷ RunStatus.compiling_invariants ∷ RunStatus.indexing
              ∷ RunStatus.investigating ∷ RunStatus.verifying ∷ [])
  unfolding IsEnd
  run_complete project incident run_id s state fresh h complete =
      elim (run-IsEnd tools sha256_hex services settings accepts run_id s invoke invoke_in_order
        project incident s state fresh (λ id. refl, λ id. refl) h) [
          | inl x ↦ (x.1, IsLogged-started run_id state x.0)
          | inr x ↦
              absurd
                (failed_not_complete (sym (IsLogged-status run_id stopped state x.0) ∙ complete))
        ]

validated-over :
    (settings : Settings) (usage : BudgetUsage)
    → settings.max_model_calls < usage.model_calls_used
    → validated (initial_budget settings (some usage)) ≡ err (value_error "budget exceeded")
unfolding validated initial_budget usage_does_not_exceed_limits
validated-over settings usage h = ground arith

-- A run of an incident that has used more calls than the settings allow raises before anything is
-- recorded, and leaves the store as it was.
pub run_over_limit :
    (tools : TextTools) (sha256_hex : String → String) (services : Services) (settings : Settings)
    (accepts : Store → Bool) (invoke : List Node → Node) (project : Project) (incident : Incident)
    (run_id : String) (s : Store) (usage : BudgetUsage)
    → get_incident_budget s incident.id ≡ some usage
    → settings.max_model_calls < usage.model_calls_used
    → run tools sha256_hex services settings accepts invoke project incident run_id s
      ≡ (err (value_error "budget exceeded"), s)
unfolding run
run_over_limit tools sha256_hex services settings accepts invoke project incident run_id s usage e
      h =
    rw (e, validated-over settings usage h)
