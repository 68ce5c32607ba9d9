-- ===== src/Audit/Workflow/Outcome.antt =====
-- backend/app/audit/workflow.py: what `run` returns.
use mathlib.Core.Path.{subst}
use Prim.Native.String.{◌++◌ as ◌<>◌}
use remedy_graph.Prelude.{
  String, some, none, List, [], ◌≡◌, ◌≢◌, refl, sym, ap, ◌∙◌, ◌⊎◌, inl, inr, arith, Option, Bool,
  true,
}
use remedy_graph.Result.{Error, Result, err, ok, result_cases}
use remedy_graph.Models.{Project, Incident}
use remedy_graph.Audit.Contracts.{AuditWorkflowState, BudgetUsage}
use remedy_graph.Audit.Compiler.Terms.{TextTools}
use remedy_graph.Storage.{Store}
use remedy_graph.Storage.Action.{◌>>◌, resume}
use remedy_graph.Storage.Budget.{get_incident_budget, validated}
use remedy_graph.Storage.Guards.{get_run_summary}
use remedy_graph.Storage.Snapshot.{save_audit_state, load_audit_state, load_run}
use remedy_graph.Audit.Workflow.{Settings, Services, event}
use remedy_graph.Audit.Workflow.Machine.{
  Phase, ready, done, stopped, fails, is_open, empty, status_of,
}
use remedy_graph.Audit.Workflow.Log.{moves, IsLogged, HasLog, IsNumbered, event-IsLogged}
use remedy_graph.Audit.Workflow.Keeps.{
  SameRecords, IsHeld, Ends, Keeps-write, Ends-bind, Ends-pure, Ends-saved,
}
use remedy_graph.Audit.Workflow.Facts.{IsMapped}
use remedy_graph.Audit.Workflow.Preparing.{Keeps-load, Keeps-compile}
use remedy_graph.Audit.Workflow.Indexing.{Keeps-retrieve}
use remedy_graph.Audit.Workflow.Judging.{
  Keeps-investigate, Keeps-assign, Keeps-graph, Ends-completion,
}
use remedy_graph.Audit.Workflow.Stages.{saved}
use remedy_graph.Audit.Workflow.Run.{
  Node, in_order, nodes, handle, recover, run, run_with, initial_state, initial_budget,
  failed_state, with_failure, failure_code_of, error_name, or_initial,
}

-- the exception that a failed state tells of
unfoldable pub TellsOf : Error → AuditWorkflowState → Type 0
TellsOf e state =
    (state.summary.failure_code ≡ some (failure_code_of e))
    × (state.summary.error ≡ some ("audit failed safely: " <> error_name e))

module _ (tools : TextTools) (sha256_hex : String → String) (services : Services)
    (settings : Settings) (accepts : Store → Bool) (run_id : String) (first : Store) where
  -- how a run may end
  unfoldable pub IsEnd : AuditWorkflowState → Type 0
  IsEnd state =
      (IsLogged run_id done state × IsMapped tools sha256_hex services first state)
      ⊎ (IsLogged run_id stopped state × (e : Error) × TellsOf e state)

  Ends-nodes :
      (state : AuditWorkflowState)
      → IsLogged run_id ready state
      → state.check_results ≡ []
      → Ends run_id first
          (λ t. IsLogged run_id done t × IsMapped tools sha256_hex services first t)
          (in_order (nodes tools sha256_hex services settings accepts) state)
  unfolding in_order nodes
  Ends-nodes state h f =
      Ends-bind run_id first _ _
        (Keeps-load tools sha256_hex services settings accepts run_id first state h f)
        (λ s1 h1.
          Ends-bind run_id first _ _
            (Keeps-compile tools sha256_hex services settings accepts run_id first s1 h1.0 h1.1)
            (λ s2 h2.
              Ends-bind run_id first _ _
                (Keeps-retrieve tools sha256_hex services settings accepts run_id first s2 h2.0
                  h2.1)
                (λ s3 h3.
                  Ends-bind run_id first _ _
                    (Keeps-investigate tools sha256_hex services settings accepts run_id first s3
                      h3.0 h3.1)
                    (λ s4 h4.
                      Ends-bind run_id first _ _
                        (Keeps-assign tools sha256_hex services settings accepts run_id first s4
                          h4.0 h4.1)
                        (λ s5 h5.
                          Ends-bind run_id first _ _
                            (Keeps-graph tools sha256_hex services settings accepts run_id first s5
                              h5.0 h5.1)
                            (λ s6 h6. Ends-pure run_id first _ (
                              Ends-completion tools sha256_hex services settings accepts run_id
                                first s6 h6.0 h6.1)))))))

  -- the state for an exception
  failed-IsEnd :
      (p : Phase) (e : Error) (current : AuditWorkflowState)
      → is_open p ≡ true
      → IsLogged run_id p current
      → IsEnd (failed_state sha256_hex e current)
  unfolding IsEnd failed_state TellsOf IsLogged status_of event
  failed-IsEnd p e current o h = inr (
    event-IsLogged sha256_hex run_id _ (with_failure e current) current.summary.status h (fails o)
        refl,
    e,
    (refl, refl),
  )

  recover-eq :
      (initial : AuditWorkflowState) (e : Error) (found : Option AuditWorkflowState) (s : Store)
      → load_audit_state s run_id ≡ ok found
      → recover tools sha256_hex services settings accepts run_id initial e s
        ≡ saved accepts (failed_state sha256_hex e (or_initial initial found)) s
  unfolding recover
  recover-eq initial e found s h = rw h

  recover-err :
      (initial : AuditWorkflowState) (e : Error) (s : Store) (a : AuditWorkflowState) (z : Error)
      → load_audit_state s run_id ≡ err z
      → (recover tools sha256_hex services settings accepts run_id initial e s).0 ≢ ok a
  unfolding recover
  recover-err initial e s a z h r = ground arith

  -- the state that is found, or the one that the run began with
  found-IsLogged :
      (initial : AuditWorkflowState) (found : Option AuditWorkflowState) (s : Store)
      → IsLogged run_id ready initial
      → IsHeld run_id first s
      → load_audit_state s run_id ≡ ok found
      → (p : Phase) × (is_open p ≡ true) × IsLogged run_id p (or_initial initial found)
  found-IsLogged initial none s h held e = (ready, refl, h)
  found-IsLogged initial (some state) s h held e = held.0 state e

  recover-IsEnd :
      (initial : AuditWorkflowState) (e : Error) (s : Store) (a : AuditWorkflowState)
      → IsLogged run_id ready initial
      → IsHeld run_id first s
      → (recover tools sha256_hex services settings accepts run_id initial e s).0 ≡ ok a
      → IsEnd a
  recover-IsEnd initial e s a h held r = elim (result_cases (load_audit_state s run_id)) [
    | inl (z, k) ↦ absurd (recover-err initial e s a z k r)
    | inr (found, k) ↦
        let (p, o, logged) = found-IsLogged initial found s h held k in
        let state = failed_state sha256_hex e (or_initial initial found) in
        let ends =
          Ends-saved run_id first accepts {P = IsEnd} state
            (failed-IsEnd p e (or_initial initial found) o logged) s held in
        ends.1 a (
          ap (λ (x : Result AuditWorkflowState × Store). x.0) (sym (recover-eq initial e found s k))
          ∙ r)
  ]

  handle-IsEnd :
      (initial : AuditWorkflowState) (r : Result AuditWorkflowState) (s : Store)
      (a : AuditWorkflowState)
      → IsLogged run_id ready initial
      → ((e : Error) → r ≡ err e → IsHeld run_id first s)
        × ((b : AuditWorkflowState)
            → r ≡ ok b
            → IsLogged run_id done b × IsMapped tools sha256_hex services first b)
      → (handle (recover tools sha256_hex services settings accepts run_id initial) r s).0 ≡ ok a
      → IsEnd a
  unfolding IsEnd
  handle-IsEnd initial (err e) s a h k r = recover-IsEnd initial e s a h (k.0 e refl) r
  handle-IsEnd initial (ok b) s a h k r = inl (k.1 a r)

  initial-IsLogged :
      (project : Project) (incident : Incident) (budget : BudgetUsage)
      → IsLogged run_id ready (initial_state project incident run_id budget)
  unfolding IsLogged initial_state HasLog status_of moves IsNumbered
  initial-IsLogged project incident budget = (refl, refl, empty, tt, tt)

  initial-results :
      (project : Project) (incident : Incident) (budget : BudgetUsage)
      → (initial_state project incident run_id budget).check_results ≡ []
  unfolding initial_state
  initial-results project incident budget = refl

  fresh-IsHeld :
      (s : Store) → get_run_summary s run_id ≡ none → SameRecords first s → IsHeld run_id first s
  unfolding load_audit_state load_run
  fresh-IsHeld s fresh same = (λ state h. absurd (ground arith), same)

  module _ (invoke : List Node → Node)
      (invoke_in_order : (ns : List Node) (state : AuditWorkflowState)
        → invoke ns state ≡ in_order ns state) where
    run_with-IsEnd :
        (project : Project) (incident : Incident) (budget : BudgetUsage) (s : Store)
        (a : AuditWorkflowState)
        → get_run_summary s run_id ≡ none
        → SameRecords first s
        → (run_with tools sha256_hex services settings accepts invoke project incident run_id budget
            s).0
          ≡ ok a
        → IsEnd a
    unfolding run_with
    run_with-IsEnd project incident budget s a fresh same h =
        let initial = initial_state project incident run_id budget in
        let logged = initial-IsLogged project incident budget in
        let ns = nodes tools sha256_hex services settings accepts in
        let invoked =
          subst
            (Ends run_id first
              (λ t. IsLogged run_id done t × IsMapped tools sha256_hex services first t))
            (sym (invoke_in_order ns initial))
            (Ends-nodes initial logged (initial-results project incident budget)) in
        let m = save_audit_state accepts initial >> invoke ns initial in
        let ends =
          Ends-bind run_id first (save_audit_state accepts initial) (λ _. invoke ns initial)
            (Keeps-write run_id first accepts ready initial refl logged) (λ u _. invoked) s
            (fresh-IsHeld s fresh same) in
        handle-IsEnd initial (m s).0 (m s).1 a logged ends h

    run-cases :
        (checked : Result BudgetUsage) (project : Project) (incident : Incident) (s : Store)
        (a : AuditWorkflowState)
        → get_run_summary s run_id ≡ none
        → SameRecords first s
        → (resume checked
            (run_with tools sha256_hex services settings accepts invoke project incident run_id)
            s).0
          ≡ ok a
        → IsEnd a
    run-cases (err e) project incident s a fresh same h = absurd (ground arith)
    run-cases (ok budget) project incident s a fresh same h =
        run_with-IsEnd project incident budget s a fresh same h

    -- run
    pub run-IsEnd :
        (project : Project) (incident : Incident) (s : Store) (a : AuditWorkflowState)
        → get_run_summary s run_id ≡ none
        → SameRecords first s
        → (run tools sha256_hex services settings accepts invoke project incident run_id s).0 ≡ ok a
        → IsEnd a
    unfolding run
    run-IsEnd project incident s a fresh same h =
        let checked = validated (initial_budget settings (get_incident_budget s incident.id)) in
        run-cases checked project incident s a fresh same h
