-- ===== src/Tests/Approvals.antt =====
-- A guard of a completed run: its approval, its execution, and the store before and after.
use remedy_graph.Prelude.{
  String, ◌≡◌, refl, none, some, List, [], ◌∷◌, Bool, true, false, arith, lookup, eq_iff,
}
use remedy_graph.Result.{is_ok, err, os_error, Result, ok}
use remedy_graph.Models.{Project, RunStatus, Verdict}
use remedy_graph.Audit.Contracts.{AuditRunSummary, ActionVerdict}
use remedy_graph.Guards.Contracts.{
  GuardSpec, GuardApproval, GuardExecution, GuardType, GuardStatus, GuardExecutionStatus, previewed,
}
use remedy_graph.Storage.{Store, select_rows, commit}
use remedy_graph.Storage.Budget.{fresh_usage}
use remedy_graph.Storage.Guards.{
  get_guard, get_guard_approval, get_run_summary, save_guard_execution, check_execution,
  validate_guard,
}
use remedy_graph.Guards.Service.{
  approve, Runner, decide, execute, find_guard, execute_approved, runner_of, run_guard,
}
use remedy_graph.Guards.Service.Laws.{IsAllowed, execute-ok}
use remedy_graph.Guards.Service.Agreement.{Agrees}
use remedy_graph.Guards.Service.Rollback.{SameGuards, failed_write_restores}
use remedy_graph.Guards.Service.Lifecycle.{decide-Agrees, execute-Agrees}
use remedy_graph.Tests.Samples.{no_hash, cap_retries, outage, invariant_sample}

abbrev guard : GuardStatus → GuardSpec
guard status = record {
  id = "g1";
  run_id = "run";
  action_id = "a1";
  invariant_id = "i1";
  name = "retry cap";
  guard_type = GuardType.configuration;
  intent = "retries stay capped";
  assumptions = [];
  assertions = [];
  target_path = "tests/test_guard.py";
  preview = "assert True";
  preview_sha256 = "abc";
  template_version = "1";
  terms = [];
  test_only = false;
  match_all = false;
  expected_literals = [];
  execution_label = "python";
  status = status;
}

abbrev approval : GuardApproval
approval = record {
  id = "ap";
  guard_id = "g1";
  run_id = "run";
  approved = true;
  preview_sha256 = "abc";
}

abbrev execution : GuardExecution
execution = record {
  id = "x1";
  guard_id = "g1";
  run_id = "run";
  status = GuardExecutionStatus.passed;
  command_label = "python";
  exit_code = some 0;
  stdout = "";
  stderr = "";
  timed_out = false;
  output_truncated = false;
  artifact_sha256 = "abc";
}

abbrev summary : AuditRunSummary
summary = record {
  id = "run";
  project_id = "p1";
  incident_id = "inc";
  status = RunStatus.complete;
  total_actions = 1;
  completed_actions = 1;
  verdict_counts = [];
  assessed_protection_coverage = 0;
  budget = fresh_usage 6;
  failure_code = none;
  error = none;
}

abbrev verdict : ActionVerdict
verdict = record {
  id = "v1";
  run_id = "run";
  action_id = "a1";
  verdict = Verdict.missing;
  rationale = "no implementation";
  invariant_ids = "i1" ∷ [];
  citations = [];
  missing_proofs = "no credible implementation evidence was found" ∷ [];
  confidence = 10;
}

abbrev store : GuardSpec → List (String × GuardApproval) → Store
store g approvals = record {
  projects =
      ("p1", record { id = "p1"; name = "shop"; repository_path = "shop"; index_version = "1" })
      ∷ [];
  incidents = ("inc", outage) ∷ [];
  corrective_actions = ("a1", cap_retries) ∷ [];
  repository_index_metadata = [];
  incident_budget_counters = [];
  audit_runs = ("run", summary) ∷ [];
  compiled_invariants = ("run", invariant_sample) ∷ [];
  deterministic_checks = [];
  evidence = [];
  deterministic_check_results = [];
  verdicts = ("run", verdict) ∷ [];
  evidence_graph_nodes = [];
  evidence_graph_edges = [];
  workflow_events = [];
  budget_counters = [];
  guard_specs = ("g1", g) ∷ [];
  guard_approvals = approvals;
  guard_executions = [];
}

abbrev before : Store
before = store (guard previewed) []

abbrev approved : Store
approved = store (guard GuardStatus.written) (("g1", approval) ∷ [])

abbrev accept_all : Store → Bool
accept_all s = true

abbrev runner_for : Project → Result Runner
runner_for p = ok (record {
  validate_preview = λ g. ok tt;
  write_approved = λ g. ok tt;
  execute = λ g. ok execution;
})

before-Agrees : Agrees before
unfolding get_guard get_guard_approval lookup
before-Agrees k = ground (arith, eq_iff "g1" k)

approved-Agrees : Agrees approved
unfolding get_guard get_guard_approval lookup
approved-Agrees k = ground (arith, eq_iff "g1" k)

executed : (execute no_hash accept_all runner_for "run" "g1" approved).0 ≡ ok execution
unfolding execute find_guard get_guard lookup execute_approved get_guard_approval runner_of
    get_run_summary run_guard save_guard_execution check_execution validate_guard select_rows commit
executed = refl

decide-Agrees_example : Agrees (decide no_hash accept_all runner_for "run" "g1" true "abc" before).1
decide-Agrees_example =
    decide-Agrees no_hash accept_all runner_for "run" "g1" true "abc" before before-Agrees

execute-Agrees_example : Agrees (execute no_hash accept_all runner_for "run" "g1" approved).1
execute-Agrees_example =
    execute-Agrees no_hash accept_all runner_for "run" "g1" approved approved-Agrees

execute-ok_example :
    (g : GuardSpec) × (a : GuardApproval) × (get_guard approved "g1" ≡ some g)
    × (get_guard_approval approved g.id ≡ some a)
    × IsAllowed no_hash accept_all runner_for "run" g a execution
execute-ok_example = execute-ok no_hash accept_all runner_for "run" "g1" approved execution executed

-- a disk that is full
abbrev broken : Runner
broken = record {
  validate_preview = λ g. ok tt;
  write_approved = λ g. err (os_error "no space");
  execute = λ g. ok execution;
}

stands : get_guard before (guard previewed).id ≡ some (guard previewed)
unfolding get_guard lookup
stands = refl

failed_write_restores_example :
    (is_ok (approve no_hash accept_all runner_for broken (guard previewed) approval before).0
      ≡ false)
    × SameGuards
        (approve no_hash accept_all runner_for broken (guard previewed) approval before).1
        before
failed_write_restores_example =
    failed_write_restores no_hash accept_all runner_for broken (guard previewed) approval before
      (os_error "no space") (λ t. refl) stands refl
