-- ===== src/Guards/Service.antt =====
-- backend/app/guards/service.py: the lifecycle of a guard. The runner of a project, which writes and
-- runs the artifact, is an interface; `decide` and `execute` are actions on the store.
pub mod Laws
pub mod Agreement
pub mod Lifecycle
pub mod Rollback
use remedy_graph.Prelude.{
  String, Option, none, some, List, [], ◌∷◌, not, Bool, true, false, ◌&&◌, ◌||◌, ◌==◌, lookup,
  if◌then◌else◌,
}
use remedy_graph.Result.{Error, http, guard_safety, Result, ok, err, raise_if, or_raise}
use remedy_graph.Ids.{stable_id}
use remedy_graph.Models.{Project}
use remedy_graph.Audit.Contracts.{AuditRunSummary}
use remedy_graph.Guards.Contracts.{
  GuardSpec, GuardApproval, GuardExecution, GuardStatus, GuardExecutionStatus, previewed, rejected,
  written,
}
use remedy_graph.Storage.{Store}
use remedy_graph.Storage.Action.{Action, pure, raise, lift, gets, reads, ◌>>=◌, ◌>>◌}
use remedy_graph.Storage.Guards.{
  get_run_summary, get_guard, get_guard_approval, list_guard_executions, record_guard_decision,
  restore_guard_preview, save_guard_execution,
}

-- What `GuardRunner` offers to the service.
pub record Runner : Type 0 where
  pub validate_preview : GuardSpec → Result (Unit {0})
  pub write_approved : GuardSpec → Result (Unit {0})
  pub execute : GuardSpec → Result GuardExecution

abbrev pub is_previewed : GuardStatus → Bool
is_previewed previewed = true
is_previewed _ = false

-- `except GuardSafetyError as exc`
abbrev pub as_http {ℓ} : {A : Type ℓ} → Result A → Result A
as_http (err (guard_safety message)) = err (http 422 message)
as_http r = r

-- the statuses that `execute` accepts
abbrev pub is_executable : GuardStatus → Bool
is_executable previewed = false
is_executable rejected = false
is_executable _ = true

-- the status of a guard after an execution
abbrev pub outcome : GuardExecutionStatus → GuardStatus
outcome GuardExecutionStatus.passed = GuardStatus.passed
outcome GuardExecutionStatus.failed = GuardStatus.failed
outcome GuardExecutionStatus.timed_out = GuardStatus.timed_out
outcome GuardExecutionStatus.error = GuardStatus.error

-- approval is not None and approval.approved and approval.preview_sha256 == guard.preview_sha256
abbrev pub is_valid_approval : GuardSpec → Option GuardApproval → Bool
is_valid_approval guard none = false
is_valid_approval guard (some a) = a.approved && a.preview_sha256 == guard.preview_sha256

-- `_guard`, with what the store has under the id
abbrev owned : String → Option GuardSpec → Result GuardSpec
owned run_id none = err (http 404 "guard not found")
owned run_id (some guard) =
    if guard.run_id == run_id then ok guard else err (http 404 "guard not found")

unfoldable pub find_guard : String → String → Store → Result GuardSpec
find_guard run_id guard_id s = owned run_id (get_guard s guard_id)

module _ (sha256_hex : String → String) (accepts : Store → Bool)
    (runner_for : Project → Result Runner) where
  -- `_runner`
  unfoldable pub runner_of : String → Store → Result Runner
  runner_of run_id s = elim (get_run_summary s run_id) [
    | none ↦ err (http 404 "audit run not found")
    | some summary ↦ elim (lookup summary.project_id s.projects) [
      | none ↦ err (http 409 "audit project is missing")
      | some project ↦ runner_for project
    ]
  ]

  unfoldable pub approval_of : String → GuardSpec → Bool → String → GuardApproval
  approval_of run_id guard approved preview_sha256 = record {
    id = stable_id sha256_hex "guard_approval" (guard.id ∷ preview_sha256 ∷ []);
    guard_id = guard.id;
    run_id = run_id;
    approved = approved;
    preview_sha256 = preview_sha256;
  }

  -- `try: runner.write_approved(…) except Exception: restore; raise`
  unfoldable pub written_or_restored : GuardSpec → GuardSpec → Result (Unit {0}) → Action GuardSpec
  written_or_restored guard approved_guard (ok u) = pure approved_guard
  written_or_restored guard approved_guard (err e) = do restore_guard_preview accepts guard; raise e

  unfoldable pub approve : Runner → GuardSpec → GuardApproval → Action GuardSpec
  approve runner guard approval = do
    lift (runner.validate_preview guard)
    let approved_guard = record guard { status = written }
    record_guard_decision accepts approved_guard approval
    written_or_restored guard approved_guard (runner.write_approved approved_guard)

  unfoldable pub reject : GuardSpec → GuardApproval → Action GuardSpec
  reject guard approval = do
    let rejected_guard = record guard { status = rejected }
    record_guard_decision accepts rejected_guard approval
    pure rejected_guard

  -- the two ends of `decide`
  unfoldable pub settle : Bool → String → GuardSpec → GuardApproval → Action GuardSpec
  settle false run_id guard approval = reject guard approval
  settle true run_id guard approval = do
    runner ← reads (runner_of run_id)
    approve runner guard approval

  unfoldable pub decide : String → String → Bool → String → Action GuardSpec
  decide run_id guard_id approved preview_sha256 = do
    guard ← reads (find_guard run_id guard_id)
    lift (
        raise_if (not (is_previewed guard.status))
          (http 409 "guard decision has already been recorded"))
    lift (
        raise_if (not (preview_sha256 == guard.preview_sha256))
          (http 409 "guard preview changed; request a fresh preview"))
    let approval = approval_of run_id guard approved preview_sha256
    settle approved run_id guard approval

  -- the end of `execute`: the run, the new status and the record of the run
  unfoldable pub run_guard : GuardSpec → Runner → Action GuardExecution
  run_guard guard runner = do
    execution ← lift (as_http (runner.execute guard))
    save_guard_execution accepts (record guard { status = outcome execution.status }) execution
    pure execution

  -- `execute` of a guard that was found, with the approval that was read
  unfoldable pub execute_approved :
      String → GuardSpec → Option GuardApproval → Action GuardExecution
  execute_approved run_id guard approval = do
    lift (raise_if (not (is_valid_approval guard approval)) (http 409 "valid approval not found"))
    runner ← reads (λ s. as_http (runner_of run_id s))
    run_guard guard runner

  unfoldable pub execute : String → String → Action GuardExecution
  execute run_id guard_id = do
    guard ← reads (find_guard run_id guard_id)
    lift (
        raise_if (not (is_executable guard.status))
          (http 409 "guard must be explicitly approved and written before execution"))
    approval ← gets (λ s. get_guard_approval s guard.id)
    execute_approved run_id guard approval

  unfoldable pub executions : String → String → Action (List GuardExecution)
  executions run_id guard_id = do
    guard ← reads (find_guard run_id guard_id)
    gets (λ s. list_guard_executions s guard_id)
