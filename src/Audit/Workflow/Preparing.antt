-- ===== src/Audit/Workflow/Preparing.antt =====
-- backend/app/audit/workflow.py: how a stage ends, and the first two stages as steps of a run.
use mathlib.Core.Path.{subst}
use remedy_graph.Prelude.{sym, [], String, ◌≡◌, refl, Bool}
use remedy_graph.Audit.Workflow.Machine.{ready}
use remedy_graph.Audit.Workflow.{required_project, required_incident}
use remedy_graph.Audit.Workflow.Keeps.{Keeps-project, Keeps-incident}
use remedy_graph.Audit.Workflow.Log.{IsLogged-status}
use remedy_graph.Audit.Workflow.Machine.{enter_parsing, enter_compiling}
use remedy_graph.Audit.Compiler.{compile}
use remedy_graph.Audit.Workflow.Keeps.{Keeps-guard}
use remedy_graph.Result.{raise_if, value_error}
use remedy_graph.Audit.Workflow.Parts.{owned_by}
use remedy_graph.Prelude.{not}
use remedy_graph.Prelude.{true}
use remedy_graph.Audit.Workflow.Machine.{is_open}
use remedy_graph.Audit.Workflow.Keeps.{Ends, Ends-saved}
use remedy_graph.Models.{RunStatus}
use remedy_graph.Audit.Contracts.{AuditWorkflowState, stage_completed}
use remedy_graph.Audit.Compiler.Terms.{TextTools}
use remedy_graph.Storage.{Store}
use remedy_graph.Audit.Workflow.{
  Settings, Services, event, stage, required_project, required_incident,
}
use remedy_graph.Audit.Workflow.Machine.{Phase, active, settled, Step, finishes, status_of}
use remedy_graph.Audit.Workflow.Log.{IsLogged, HasLog, event-IsLogged, stage-IsLogged}
use remedy_graph.Audit.Workflow.Keeps.{Keeps, Keeps-weaken, Keeps-bind, Keeps-saved}
use remedy_graph.Audit.Workflow.Facts.{IsCompiled}
use remedy_graph.Audit.Workflow.Stages.{saved, completed, load_incident_actions, compile_invariants}

module _ (sha256_hex : String → String) (accepts : Store → Bool) (run : String)
    (first : Store) where
  -- the end of a stage
  pub Keeps-completed :
      (F : AuditWorkflowState → Type 0) (p q : Phase) (before status : RunStatus) (detail : String)
      (state : AuditWorkflowState)
      → is_open q ≡ true
      → HasLog run p state.summary.id before state.events
      → Step p (stage_completed, status) q
      → state.summary.status ≡ status_of q
      → F (event sha256_hex stage_completed status detail state)
      → Keeps run first
          (λ t. IsLogged run q t × F t)
          (completed sha256_hex accepts status detail state)
  unfolding completed
  Keeps-completed F p q before status detail state o h step same f =
      let t = event sha256_hex stage_completed status detail state in
      let logged = event-IsLogged sha256_hex run detail state before h step same in
      Keeps-weaken run first (saved accepts t) (Keeps-saved run first accepts q t o logged)
        (λ u e. subst (λ x. IsLogged run q x × F x) (sym e) (logged, f))

  -- the same from a state that is logged and keeps its status
  pub Keeps-finished :
      (F : AuditWorkflowState → Type 0) (status : RunStatus) (detail : String)
      (state : AuditWorkflowState)
      → IsLogged run (active status) state
      → F (event sha256_hex stage_completed status detail state)
      → Keeps run first
          (λ t. IsLogged run (settled status) t × F t)
          (completed sha256_hex accepts status detail state)
  unfolding IsLogged status_of
  Keeps-finished F status detail state h f =
      Keeps-completed F (active status) (settled status) state.summary.status status detail state
        refl h finishes (IsLogged-status run (active status) state h) f

  -- the end of the last stage
  pub Ends-completed :
      (F : AuditWorkflowState → Type 0) (p q : Phase) (before status : RunStatus) (detail : String)
      (state : AuditWorkflowState)
      → HasLog run p state.summary.id before state.events
      → Step p (stage_completed, status) q
      → state.summary.status ≡ status_of q
      → F (event sha256_hex stage_completed status detail state)
      → Ends run first
          (λ t. IsLogged run q t × F t)
          (completed sha256_hex accepts status detail state)
  unfolding completed
  Ends-completed F p q before status detail state h step same f =
      let t = event sha256_hex stage_completed status detail state in
      Ends-saved run first accepts {P = λ x. IsLogged run q x × F x} t
        (event-IsLogged sha256_hex run detail state before h step same, f)

module _ (tools : TextTools) (sha256_hex : String → String) (services : Services)
    (settings : Settings) (accepts : Store → Bool) (run : String) (first : Store) where
  pub Keeps-load :
      (state : AuditWorkflowState)
      → IsLogged run ready state
      → state.check_results ≡ []
      → Keeps run first
          (λ t. IsLogged run (settled RunStatus.parsing) t × (t.check_results ≡ []))
          (load_incident_actions tools sha256_hex services settings accepts state)
  unfolding load_incident_actions IsLogged stage event
  Keeps-load state h f =
      let begun = stage sha256_hex RunStatus.parsing state in
      Keeps-bind run first (required_project begun.summary.project_id) _ (Keeps-project run first _)
        (λ project _.
          Keeps-bind run first (required_incident begun.summary.incident_id) _
            (Keeps-incident run first _)
            (λ incident _.
              Keeps-guard run first
                (raise_if (not (owned_by incident.project_id project.id))
                  (value_error "incident does not belong to audit project"))
                _
                (Keeps-finished sha256_hex accepts run first (λ t. t.check_results ≡ [])
                  RunStatus.parsing _ (record begun { actions = incident.actions })
                  (stage-IsLogged sha256_hex run state h enter_parsing) f)))

  pub Keeps-compile :
      (state : AuditWorkflowState)
      → IsLogged run (settled RunStatus.parsing) state
      → state.check_results ≡ []
      → Keeps run first
          (λ t.
            IsLogged run (settled RunStatus.compiling_invariants) t
            × IsCompiled tools sha256_hex services first t)
          (compile_invariants tools sha256_hex services settings accepts state)
  unfolding compile_invariants IsLogged stage event IsCompiled
  Keeps-compile state h f =
      let begun = stage sha256_hex RunStatus.compiling_invariants state in
      let result = compile tools sha256_hex begun.actions in
      Keeps-finished sha256_hex accepts run first (IsCompiled tools sha256_hex services first)
        RunStatus.compiling_invariants _
        (record begun { invariants = result.invariants; check_specs = result.check_specs })
        (stage-IsLogged sha256_hex run state h enter_compiling) ((refl, refl), f)
