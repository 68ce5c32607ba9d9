-- ===== src/Tests/Runs.antt =====
-- A whole run on the sample incident, over a repository without chunks and with checks that find
-- nothing.
use native.Mathlib.Omega.{arith}
use remedy_graph.Prelude.{◌⊎◌}
use remedy_graph.Result.{Error, value_error}
use remedy_graph.Storage.Snapshot.{load_audit_state}
use remedy_graph.Audit.Workflow.Machine.{done, stopped, started}
use remedy_graph.Audit.Workflow.Log.{IsLogged, moves}
use remedy_graph.Audit.Workflow.Facts.{IsMapped}
use remedy_graph.Audit.Workflow.Outcome.{TellsOf}
use remedy_graph.Audit.Workflow.Laws.{run_refines, run_complete, run_over_limit}
use remedy_graph.Storage.Budget.{get_incident_budget, validated}
use remedy_graph.Audit.Contracts.{usage_does_not_exceed_limits, verdict_has_traceability}
use remedy_graph.Audit.Workflow.Run.{initial_budget, initial_state, nodes}
use remedy_graph.Prelude.{Bool, true, false, Option, index_by, insert, lookup}
use remedy_graph.Storage.Snapshot.{save_audit_state, write_snapshot}
use remedy_graph.Storage.Validate.{
  check_graph, check_outcomes, check_owner, check_records, check_verdicts, require_unique,
  same_actions, validate_audit_state,
}
use remedy_graph.Storage.Incidents.{get_incident, list_actions, sort_by}
use remedy_graph.Storage.Guards.{get_run_summary}
use remedy_graph.Storage.{commit}
use remedy_graph.Audit.Workflow.Stages.{
  assign_verdicts, build_evidence_graph, compile_invariants, investigate_checks,
  load_incident_actions, persist_completion, retrieve_candidates, retrieve_for, supported_specs,
}
use remedy_graph.Audit.Workflow.{by_id, required_incident, required_project, stage}
use remedy_graph.Storage.Records.{get_project, save_repository_index, validate_index}
use remedy_graph.Ids.{stable_id, str}
use remedy_graph.Audit.Compiler.{compile, compile_action}
use remedy_graph.Audit.Workflow.Parts.{
  assign, execute_spec, index_metadata, run_records, with_verdicts,
}
use remedy_graph.Audit.Compiler.Terms.{key_candidates}
use remedy_graph.Audit.Budget.{consume_investigation_round, record_check}
use remedy_graph.Audit.Graph.{build, build_edges, build_nodes, map_from, traverse}
use remedy_graph.Audit.Verifier.{assess, cite, facts, missing_proofs, verify_action}
use remedy_graph.Audit.Graph.Validate.{validate}
use remedy_graph.Audit.Graph.Keys.{edge_id, node_id, record_keys, relations}
use Prim.Native.String.{slice, count}
use remedy_graph.Prelude.{◌-◌, String, ◌≡◌, refl, none, some, List, [], ◌∷◌, false, arith}
use remedy_graph.Result.{Result, ok, err}
use remedy_graph.Models.{RunStatus}
use remedy_graph.Audit.Contracts.{CheckOutcome, AuditWorkflowState}
use remedy_graph.Storage.{Store}
use remedy_graph.Storage.Budget.{fresh_usage}
use remedy_graph.Audit.Workflow.{Settings, Services}
use remedy_graph.Audit.Workflow.Run.{Node, in_order, run}
use remedy_graph.Tests.Samples.{outage, result_sample}
use remedy_graph.Tests.Compilations.{tools}
use remedy_graph.Tests.Snapshots.{state, store, accept_all, project}

abbrev settings : Settings
settings = record { max_model_calls = 6; max_investigation_rounds = 3; retrieval_top_k = 8 }

abbrev pub services : Services
services = record {
  build_index = λ p. ok (record {
    documents_indexed = 0;
    chunks_indexed = 0;
    chunk_ids = [];
    failures = [];
    skipped = [];
    total_bytes = 0;
  });
  search = λ p query top_k prefer_tests. ok [];
  run_check = λ p spec run_id action_id. ok (record {
    result = record (result_sample spec.id spec.core CheckOutcome.not_found) {
      run_id = run_id;
      invariant_id = spec.invariant_id;
      check_spec_id = spec.id;
      passed = some false;
    };
    evidence = [];
  });
}

abbrev result_state : Result AuditWorkflowState × Store → AuditWorkflowState → AuditWorkflowState
result_state (ok a, s) d = a
result_state (err e, s) d = d

abbrev tail_hash : String → String
tail_hash s = slice s (count s - 20) (count s)

outcome : Result AuditWorkflowState × Store
outcome = run tools tail_hash services settings accept_all in_order project outage "new" store

returned : AuditWorkflowState
unfolding outcome run
returned = elim outcome.0 [ ok a ↦ a | err e ↦ state ]

ran : outcome.0 ≡ ok returned
unfolding returned outcome run validated usage_does_not_exceed_limits initial_budget
    get_incident_budget lookup save_audit_state validate_audit_state check_owner initial_state
    get_incident get_run_summary check_records require_unique same_actions list_actions sort_by
    check_outcomes check_verdicts check_graph commit nodes load_incident_actions required_project
    get_project write_snapshot stage required_incident insert stable_id str compile_invariants
    compile compile_action retrieve_candidates save_repository_index validate_index index_metadata
    supported_specs key_candidates retrieve_for consume_investigation_round by_id index_by
    investigate_checks execute_spec record_check assign_verdicts assign traverse verify_action
    verdict_has_traceability cite missing_proofs assess facts with_verdicts build_evidence_graph
    build build_edges run_records map_from validate build_nodes node_id record_keys edge_id
    relations persist_completion in_order
ran = refl

in_order_refl : (ns : List Node) (st : AuditWorkflowState) → in_order ns st ≡ in_order ns st
in_order_refl ns st = refl

new_run : get_run_summary store "new" ≡ none
unfolding get_run_summary lookup
new_run = refl

returned_complete : returned.summary.status ≡ RunStatus.complete
unfolding returned outcome run validated usage_does_not_exceed_limits initial_budget
    get_incident_budget lookup save_audit_state validate_audit_state check_owner initial_state
    get_incident get_run_summary check_records require_unique same_actions list_actions sort_by
    check_outcomes check_verdicts check_graph commit nodes load_incident_actions required_project
    get_project write_snapshot stage required_incident insert stable_id str compile_invariants
    compile compile_action retrieve_candidates save_repository_index validate_index index_metadata
    supported_specs key_candidates retrieve_for consume_investigation_round by_id index_by
    investigate_checks execute_spec record_check assign_verdicts assign traverse verify_action
    verdict_has_traceability cite missing_proofs assess facts with_verdicts build_evidence_graph
    build build_edges run_records map_from validate build_nodes node_id record_keys edge_id
    relations persist_completion in_order
returned_complete = refl

run_refines_example :
    IsLogged "new" done returned
    ⊎ (IsLogged "new" stopped returned × (e : Error) × TellsOf e returned)
unfolding outcome
run_refines_example =
    run_refines tools tail_hash services settings accept_all in_order in_order_refl project outage
      "new" store returned new_run ran

run_complete_example :
    IsMapped tools tail_hash services store returned
    × (started (moves returned.events)
        ≡ RunStatus.parsing ∷ RunStatus.compiling_invariants ∷ RunStatus.indexing
          ∷ RunStatus.investigating ∷ RunStatus.verifying ∷ [])
unfolding outcome
run_complete_example =
    run_complete tools tail_hash services settings accept_all in_order in_order_refl project outage
      "new" store returned new_run ran returned_complete

abbrev loaded_or : AuditWorkflowState → Result (Option AuditWorkflowState) → AuditWorkflowState
loaded_or default (ok (some a)) = a
loaded_or default _ = default

reloaded : AuditWorkflowState
unfolding outcome
reloaded = loaded_or state (load_audit_state outcome.1 "new")

abbrev is_loaded : Result (Option AuditWorkflowState) → Bool
is_loaded (ok (some _)) = true
is_loaded _ = false

-- the same incident with five calls used, when the settings allow two
abbrev used_five : Store
used_five = record store {
  incident_budget_counters = ("inc", record (fresh_usage 6) { model_calls_used = 5 }) ∷ [];
}

run_over_limit_example :
    run tools tail_hash services
      (record settings { max_model_calls = 2 })
      accept_all
      in_order
      project
      outage
      "new"
      used_five
    ≡ (err (value_error "budget exceeded"), used_five)
unfolding get_incident_budget lookup
run_over_limit_example =
    run_over_limit tools tail_hash services (record settings { max_model_calls = 2 }) accept_all
      in_order project outage "new" used_five (record (fresh_usage 6) { model_calls_used = 5 }) refl
      (ground arith)
