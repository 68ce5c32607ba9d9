-- ===== src/Guards/Service/Laws.antt =====
-- backend/app/guards/service.py: what an execution that is returned says of the store.
use remedy_graph.Prelude.{
  String, ◌≡◌, refl, inl, inr, Option, none, some, Bool, true, eq_iff, arith, Option-cases,
}
use remedy_graph.Result.{result_cases, Result, ok, is_ok}
use remedy_graph.Models.{Project}
use remedy_graph.Guards.Contracts.{GuardSpec, GuardApproval, GuardExecution}
use remedy_graph.Storage.{Store, commit}
use remedy_graph.Storage.Guards.{
  get_guard, get_guard_approval, check_execution, save_guard_execution,
}
use remedy_graph.Guards.Service.{
  Runner, as_http, is_executable, outcome, find_guard, runner_of, run_guard, execute_approved,
  execute,
}

module _ (accepts : Store → Bool) where
  save_guard_execution-ok :
      (g : GuardSpec) (x : GuardExecution) (s : Store)
      → is_ok (save_guard_execution accepts g x s).0 ≡ true
      → (x.guard_id ≡ g.id) × (x.artifact_sha256 ≡ g.preview_sha256)
  unfolding save_guard_execution check_execution commit
  save_guard_execution-ok g x s h =
      ground (arith, eq_iff x.guard_id g.id, eq_iff x.artifact_sha256 g.preview_sha256)

module _ (sha256_hex : String → String) (accepts : Store → Bool)
    (runner_for : Project → Result Runner) where
  -- What an execution that is returned says of the guard and of its approval in the store.
  pub record IsAllowed (run_id : String) (g : GuardSpec) (a : GuardApproval) (x : GuardExecution)
      : Type 0 where
    pub run : g.run_id ≡ run_id
    pub decided : is_executable g.status ≡ true
    pub approved : a.approved ≡ true
    pub approved_text : a.preview_sha256 ≡ g.preview_sha256
    pub guard : x.guard_id ≡ g.id
    pub executed_text : x.artifact_sha256 ≡ g.preview_sha256

  run_guard-ok :
      (g : GuardSpec) (runner : Runner) (s : Store) (x : GuardExecution)
      → (run_guard sha256_hex accepts runner_for g runner s).0 ≡ ok x
      → (x.guard_id ≡ g.id) × (x.artifact_sha256 ≡ g.preview_sha256)
  unfolding run_guard
  run_guard-ok g runner s x h =
      ground (arith, save_guard_execution-ok accepts (record g { status = outcome x.status }) x s)

  execute_approved-ok :
      (run_id : String) (g : GuardSpec) (a : GuardApproval) (s : Store) (x : GuardExecution)
      → (execute_approved sha256_hex accepts runner_for run_id g (some a) s).0 ≡ ok x
      → (a.approved ≡ true)
        × (a.preview_sha256 ≡ g.preview_sha256)
        × (x.guard_id ≡ g.id)
        × (x.artifact_sha256 ≡ g.preview_sha256)
  unfolding execute_approved
  execute_approved-ok run_id g a s x h =
      elim (result_cases (as_http (runner_of sha256_hex accepts runner_for run_id s))) [
        | inr (runner, e) ↦
            ground (arith, eq_iff a.preview_sha256 g.preview_sha256, run_guard-ok g runner s x)
        | inl (z, e) ↦ absurd (ground arith)
      ]

  unapproved-err :
      (run_id : String) (g : GuardSpec) (s : Store) (x : GuardExecution)
      → ¬ ((execute_approved sha256_hex accepts runner_for run_id g none s).0 ≡ ok x)
  unfolding execute_approved
  unapproved-err run_id g s x h = cc

  execute-IsAllowed :
      (run_id guard_id : String) (s : Store) (g : GuardSpec) (a : Option GuardApproval)
      (x : GuardExecution)
      → get_guard s guard_id ≡ some g
      → get_guard_approval s g.id ≡ a
      → (execute sha256_hex accepts runner_for run_id guard_id s).0 ≡ ok x
      → (b : GuardApproval) × (a ≡ some b) × IsAllowed run_id g b x
  unfolding execute find_guard
  execute-IsAllowed run_id guard_id s g none x eg ea h =
      absurd (ground (arith, unapproved-err run_id g s x))
  execute-IsAllowed run_id guard_id s g (some a) x eg ea h =
      (a, refl, ground (arith, eq_iff g.run_id run_id, execute_approved-ok run_id g a s x))

  -- An execution is returned only if the store has the guard, in the run, past its decision, and an
  -- approval of it for its present preview; and the execution is of this guard and of this preview.
  pub execute-ok :
      (run_id guard_id : String) (s : Store) (x : GuardExecution)
      → (execute sha256_hex accepts runner_for run_id guard_id s).0 ≡ ok x
      → (g : GuardSpec) × (a : GuardApproval) × (get_guard s guard_id ≡ some g)
        × (get_guard_approval s g.id ≡ some a)
        × IsAllowed run_id g a x
  execute-ok run_id guard_id s x h = elim (Option-cases (get_guard s guard_id)) [
    | inl e ↦ absurd (unfold execute find_guard in ground arith)
    | inr (g, e) ↦
        let (a, ea, allowed) =
          execute-IsAllowed run_id guard_id s g (get_guard_approval s g.id) x e refl h in
        (g, a, e, ea, allowed)
  ]
