-- ===== src/Audit/Workflow/Stored.antt =====
-- backend/app/audit/workflow.py: the state that `run` returns is the last one that it saved.
use remedy_graph.Prelude.{String, List, [], ◌∷◌, ◌≡◌, refl, sym, Bool, arith}
use remedy_graph.Prelude.{true}
use remedy_graph.Audit.Workflow.Keeps.{ok-injective}
use mathlib.Core.Path.{subst}
use remedy_graph.Prelude.{◌++◌}
use remedy_graph.Storage.Action.{lift, reads}
use remedy_graph.Audit.Workflow.Stages.{
  load_incident_actions, compile_invariants, retrieve_candidates, investigate_checks,
  assign_verdicts, build_evidence_graph,
}
use remedy_graph.Audit.Workflow.Run.{failed_state, or_initial}
use remedy_graph.Result.{Error, Result, err, ok, is_ok}
use remedy_graph.Models.{Project, Incident}
use remedy_graph.Audit.Contracts.{AuditWorkflowState, BudgetUsage}
use remedy_graph.Audit.Compiler.Terms.{TextTools}
use remedy_graph.Storage.{Store}
use remedy_graph.Storage.Action.{Action, pure, ◌>>=◌, resume}
use remedy_graph.Storage.Budget.{get_incident_budget, validated}
use remedy_graph.Storage.Snapshot.{save_audit_state, load_audit_state, write_snapshot}
use remedy_graph.Storage.Snapshot.Laws.{save-ok}
use remedy_graph.Audit.Workflow.{Settings, Services}
use remedy_graph.Audit.Workflow.Stages.{saved, completed, persist_completion}
use remedy_graph.Audit.Workflow.Run.{
  Node, in_order, nodes, attempt, handle, recover, run, run_with, initial_state, initial_budget,
}

-- the store is that of the snapshot of the result
abbrev pub Saves : Action AuditWorkflowState → Type 0
Saves m =
    (s : Store) (a : AuditWorkflowState)
    → (m s).0 ≡ ok a
    → (t : Store) × ((m s).1 ≡ write_snapshot a t)

Saves-resume :
    {A : Type 0} (r : Result A) (f : A → Action AuditWorkflowState) (s : Store)
    (a : AuditWorkflowState)
    → ((b : A) → Saves (f b))
    → (resume r f s).0 ≡ ok a
    → (t : Store) × ((resume r f s).1 ≡ write_snapshot a t)
Saves-resume (err e) f s a k h = absurd (ground arith)
Saves-resume (ok b) f s a k h = k b s a h

Saves-bind :
    {A : Type 0} (m : Action A) (f : A → Action AuditWorkflowState)
    → ((a : A) → Saves (f a))
    → Saves (m >>= f)
Saves-bind m f k s a h = Saves-resume (m s).0 f (m s).1 a k h

Saves-last :
    (r : Result AuditWorkflowState) (s : Store) (a : AuditWorkflowState)
    → ((b : AuditWorkflowState) → r ≡ ok b → (t : Store) × (s ≡ write_snapshot b t))
    → (resume r pure s).0 ≡ ok a
    → (t : Store) × ((resume r pure s).1 ≡ write_snapshot a t)
Saves-last (err e) s a k h = absurd (ground arith)
Saves-last (ok b) s a k h = k a h

Saves-pure : (m : Action AuditWorkflowState) → Saves m → Saves (m >>= pure)
Saves-pure m k s a h = Saves-last (m s).0 (m s).1 a (k s) h

module _ (accepts : Store → Bool) where
  Saves-step :
      (state : AuditWorkflowState) (r : Result (Unit {0})) (s : Store) (a : AuditWorkflowState)
      → (is_ok r ≡ true → (t : Store) × (s ≡ write_snapshot state t))
      → (resume r (λ _. pure state) s).0 ≡ ok a
      → (t : Store) × ((resume r (λ _. pure state) s).1 ≡ write_snapshot a t)
  Saves-step state (err e) s a k h = absurd (ground arith)
  Saves-step state (ok u) s a k h =
      subst (λ x. (t : Store) × (s ≡ write_snapshot x t)) (ok-injective state a h) (k refl)

  pub Saves-saved : (state : AuditWorkflowState) → Saves (saved accepts state)
  unfolding saved
  Saves-saved state s a h =
      Saves-step state (save_audit_state accepts state s).0 (save_audit_state accepts state s).1 a
        (λ e. (s, (save-ok accepts state s e).1)) h

Saves-in_order :
    (ns : List Node) (node : Node)
    → ((state : AuditWorkflowState) → Saves (node state))
    → (state : AuditWorkflowState) → Saves (in_order (ns ++ node ∷ []) state)
unfolding in_order
Saves-in_order [] node k state = Saves-pure (node state) (k state)
Saves-in_order (n ∷ ns) node k state =
    Saves-bind (n state) (in_order (ns ++ node ∷ [])) (Saves-in_order ns node k)

Saves-handle :
    (handler : Error → Action AuditWorkflowState) (r : Result AuditWorkflowState) (s : Store)
    (a : AuditWorkflowState)
    → ((b : AuditWorkflowState) → r ≡ ok b → (t : Store) × (s ≡ write_snapshot b t))
    → ((e : Error) → Saves (handler e))
    → (handle handler r s).0 ≡ ok a
    → (t : Store) × ((handle handler r s).1 ≡ write_snapshot a t)
Saves-handle handler (err e) s a k l h = l e s a h
Saves-handle handler (ok b) s a k l h = k a h

Saves-attempt :
    (m : Action AuditWorkflowState) (handler : Error → Action AuditWorkflowState)
    → Saves m
    → ((e : Error) → Saves (handler e))
    → Saves (attempt m handler)
Saves-attempt m handler k l s a h = Saves-handle handler (m s).0 (m s).1 a (k s) l h

module _ (tools : TextTools) (sha256_hex : String → String) (services : Services)
    (settings : Settings) (accepts : Store → Bool) where
  Saves-persist :
      (state : AuditWorkflowState)
      → Saves (persist_completion tools sha256_hex services settings accepts state)
  unfolding persist_completion completed
  Saves-persist state = Saves-saved accepts _

  Saves-nodes :
      (state : AuditWorkflowState)
      → Saves (in_order (nodes tools sha256_hex services settings accepts) state)
  unfolding nodes
  Saves-nodes =
      Saves-in_order
        (load_incident_actions tools sha256_hex services settings accepts
          ∷ compile_invariants tools sha256_hex services settings accepts
          ∷ retrieve_candidates tools sha256_hex services settings accepts
          ∷ investigate_checks tools sha256_hex services settings accepts
          ∷ assign_verdicts tools sha256_hex services settings accepts
          ∷ build_evidence_graph tools sha256_hex services settings accepts
          ∷ [])
        (persist_completion tools sha256_hex services settings accepts) Saves-persist

  Saves-recover :
      (run_id : String) (initial : AuditWorkflowState) (e : Error)
      → Saves (recover tools sha256_hex services settings accepts run_id initial e)
  unfolding recover
  Saves-recover run_id initial e =
      Saves-bind (reads (λ s. load_audit_state s run_id))
        (λ found. saved accepts (failed_state sha256_hex e (or_initial initial found)))
        (λ found. Saves-saved accepts (failed_state sha256_hex e (or_initial initial found)))

  module _ (invoke : List Node → Node)
      (invoke_in_order : (ns : List Node) (state : AuditWorkflowState)
        → invoke ns state ≡ in_order ns state) where
    Saves-run_with :
        (project : Project) (incident : Incident) (run_id : String) (budget : BudgetUsage)
        → Saves (
            run_with tools sha256_hex services settings accepts invoke project incident run_id
              budget)
    unfolding run_with
    Saves-run_with project incident run_id budget =
        let initial = initial_state project incident run_id budget in
        let ns = nodes tools sha256_hex services settings accepts in
        Saves-attempt _ _
          (Saves-bind (save_audit_state accepts initial) (λ _. invoke ns initial)
            (λ _. subst Saves (sym (invoke_in_order ns initial)) (Saves-nodes initial)))
          (Saves-recover run_id initial)

    pub Saves-run :
        (project : Project) (incident : Incident) (run_id : String)
        → Saves (run tools sha256_hex services settings accepts invoke project incident run_id)
    unfolding run
    Saves-run project incident run_id s =
        let checked = validated (initial_budget settings (get_incident_budget s incident.id)) in
        Saves-bind (lift checked)
          (run_with tools sha256_hex services settings accepts invoke project incident run_id)
          (Saves-run_with project incident run_id) s
