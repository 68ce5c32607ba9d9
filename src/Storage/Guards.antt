-- ===== src/Storage/Guards.antt =====
-- backend/app/storage.py: the tables of guards, their decisions and their executions. The order
-- `created_at, id` of a listing is the order of insertion.
use remedy_graph.Prelude.{
  String, Option, none, some, List, [], ◌∷◌, ◌++◌, map, filter, find, not, Bool, true, false, ◌&&◌,
  ◌||◌, ◌==◌, Dict, lookup, insert, if◌then◌else◌,
}
use remedy_graph.Result.{state_integrity, integrity_error, Result, ok, err, raise_if, ◌>>◌}
use remedy_graph.Models.{Verdict, partial, missing, RunStatus, complete}
use remedy_graph.Audit.Contracts.{CompiledInvariant, ActionVerdict, AuditRunSummary}
use remedy_graph.Guards.Contracts.{
  GuardSpec, GuardApproval, GuardExecution, GuardStatus, rejected, written,
}
use remedy_graph.Storage.{Store, select_rows, commit}

abbrev pub is_complete : RunStatus → Bool
is_complete complete = true
is_complete _ = false

-- verdict.verdict.value in {"PARTIAL", "MISSING"}
abbrev pub is_guardable : Verdict → Bool
is_guardable partial = true
is_guardable missing = true
is_guardable _ = false

abbrev pub is_rejected : GuardStatus → Bool
is_rejected rejected = true
is_rejected _ = false

abbrev pub is_written : GuardStatus → Bool
is_written written = true
is_written _ = false

unfoldable pub get_run_summary : Store → String → Option AuditRunSummary
get_run_summary s run_id = lookup run_id s.audit_runs

abbrev completed : Option AuditRunSummary → Bool
completed none = false
completed (some summary) = is_complete summary.status

abbrev owned_by : String → Option CompiledInvariant → Bool
owned_by action_id none = false
owned_by action_id (some i) = i.action_id == action_id

abbrev guardable : Option ActionVerdict → Bool
guardable none = false
guardable (some v) = is_guardable v.verdict

unfoldable pub validate_guard : Store → GuardSpec → Result (Unit {0})
validate_guard s guard = do
  raise_if (not (completed (get_run_summary s guard.run_id)))
      (state_integrity "guard requires a completed audit run")
  raise_if
      (not (
        owned_by guard.action_id (
          find (λ (i : CompiledInvariant). i.id == guard.invariant_id)
            (select_rows guard.run_id s.compiled_invariants))))
      (state_integrity "guard invariant does not belong to action")
  raise_if
      (not (
        guardable (
          find (λ (v : ActionVerdict). v.action_id == guard.action_id)
            (select_rows guard.run_id s.verdicts))))
      (state_integrity "guards are limited to partial or missing actions")

unfoldable pub get_guard : Store → String → Option GuardSpec
get_guard s guard_id = lookup guard_id s.guard_specs

unfoldable pub get_guard_approval : Store → String → Option GuardApproval
get_guard_approval s guard_id = lookup guard_id s.guard_approvals

unfoldable pub list_guards : Store → String → List GuardSpec
list_guards s run_id =
    filter (λ (g : GuardSpec). g.run_id == run_id)
      (map (λ (r : String × GuardSpec). r.1) s.guard_specs)

unfoldable pub list_guard_executions : Store → String → List GuardExecution
list_guard_executions s guard_id =
    filter (λ (e : GuardExecution). e.guard_id == guard_id)
      (map (λ (r : String × GuardExecution). r.1) s.guard_executions)

-- UPDATE guard_specs SET status, payload WHERE id = guard.id AND run_id = guard.run_id
unfoldable pub update_guard : GuardSpec → Dict GuardSpec → Dict GuardSpec
update_guard guard [] = []
update_guard guard ((k, g) ∷ rows) =
    (k, if k == guard.id && g.run_id == guard.run_id then guard else g) ∷ update_guard guard rows

-- DELETE FROM guard_approvals WHERE guard_id = k
unfoldable pub delete_approval : String → Dict GuardApproval → Dict GuardApproval
delete_approval k [] = []
delete_approval k ((j, a) ∷ rows) =
    let rest = delete_approval k rows in if j == k then rest else (j, a) ∷ rest

abbrev is_some {ℓ} : {A : Type ℓ} → Option A → Bool
is_some none = false
is_some (some a) = true

-- the checks of `record_guard_decision`
unfoldable pub check_decision : Store → GuardSpec → GuardApproval → Result (Unit {0})
check_decision s guard approval = do
  validate_guard s guard
  raise_if (not (approval.guard_id == guard.id) || not (approval.run_id == guard.run_id))
      (state_integrity "guard approval ownership mismatch")
  raise_if (not (approval.preview_sha256 == guard.preview_sha256))
      (state_integrity "guard approval does not match preview")
  raise_if (not (if approval.approved then is_written guard.status else is_rejected guard.status))
      (state_integrity "guard decision status is inconsistent")
  raise_if (is_some (get_guard_approval s guard.id)) (state_integrity "guard decision is immutable")

abbrev granted : Option GuardApproval → Bool
granted none = false
granted (some a) = a.approved

-- the checks of `save_guard_execution`
unfoldable pub check_execution : Store → GuardSpec → GuardExecution → Result (Unit {0})
check_execution s guard execution = do
  validate_guard s guard
  raise_if (not (granted (get_guard_approval s guard.id)))
      (state_integrity "guard execution requires approval")
  raise_if (not (execution.guard_id == guard.id) || not (execution.run_id == guard.run_id))
      (state_integrity "guard execution ownership mismatch")
  raise_if (not (execution.artifact_sha256 == guard.preview_sha256))
      (state_integrity "guard execution artifact differs from approved preview")

module _ (accepts : Store → Bool) where
  -- a transaction that is entered when the checks pass
  abbrev transact : Result (Unit {0}) → Store → Store → Result (Unit {0}) × Store
  transact (err e) before after = (err e, before)
  transact (ok u) before after = commit accepts integrity_error tt before after

  unfoldable pub save_guard : GuardSpec → Store → Result (Unit {0}) × Store
  save_guard guard s =
      transact (validate_guard s guard) s
        (record s { guard_specs = insert guard.id guard s.guard_specs })

  unfoldable pub record_guard_decision :
      GuardSpec → GuardApproval → Store → Result (Unit {0}) × Store
  record_guard_decision guard approval s = transact (check_decision s guard approval) s (record s {
    guard_specs = update_guard guard s.guard_specs;
    guard_approvals = insert guard.id approval s.guard_approvals;
  })

  unfoldable pub restore_guard_preview : GuardSpec → Store → Result (Unit {0}) × Store
  restore_guard_preview guard s = transact (validate_guard s guard) s (record s {
    guard_specs = update_guard guard s.guard_specs;
    guard_approvals = delete_approval guard.id s.guard_approvals;
  })

  unfoldable pub save_guard_execution :
      GuardSpec → GuardExecution → Store → Result (Unit {0}) × Store
  save_guard_execution guard execution s =
      transact (check_execution s guard execution) s (record s {
        guard_specs = update_guard guard s.guard_specs;
        guard_executions = s.guard_executions ++ (execution.id, execution) ∷ [];
      })
