-- ===== src/Tests/Calls.antt =====
-- A call of the provider for the sample run, granted and refused.
use remedy_graph.Prelude.{String, false, insert, lookup, refl, some, suc, true, ◌<◌, ◌≡◌}
use remedy_graph.Result.{Result, ok, err, runtime_error}
use remedy_graph.Audit.Contracts.{AuditWorkflowState, usage_does_not_exceed_limits}
use remedy_graph.Storage.{Store, commit, delete_run, insert_rows, select_rows}
use remedy_graph.Storage.Snapshot.{
  assemble, get_budget, load_audit_state, load_run, save_audit_state, write_snapshot,
}
use remedy_graph.Storage.Budget.Laws.{used}
use remedy_graph.Audit.Gateway.{
  charged_budget, charged_state, consumed_event, generate, generate_for,
}
use remedy_graph.Audit.Gateway.Laws.{generate-ok, generate_uncharged}
use remedy_graph.Storage.Guards.{get_run_summary}
use remedy_graph.Storage.Incidents.{get_incident, list_actions, place, sort_by}
use remedy_graph.Storage.Validate.{
  check_graph, check_outcomes, check_owner, check_records, check_verdicts, require_unique,
  same_actions, validate_audit_state,
}
use remedy_graph.Storage.Budget.{
  effective_limit, get_incident_budget, reserve_incident_model_call, validated,
}
use remedy_graph.Ids.{stable_id, str}
use remedy_graph.Tests.Samples.{no_hash}
use remedy_graph.Tests.Snapshots.{state, store, accept_all}

abbrev echo : String → Result String
echo text = ok text

abbrev fail : String → Result String
fail text = err (runtime_error text)

abbrev started : Store
started = write_snapshot state store

loaded : load_audit_state started "run" ≡ ok (some state)
unfolding load_audit_state get_run_summary lookup write_snapshot insert get_incident
    validate_audit_state check_owner assemble get_incident_budget get_budget check_records
    require_unique list_actions sort_by same_actions select_rows insert_rows load_run check_graph
    check_outcomes check_verdicts delete_run
loaded = refl

answered : (generate no_hash accept_all echo "run" false "extract" started).0 ≡ ok "extract"
unfolding load_audit_state get_run_summary lookup write_snapshot insert get_incident
    validate_audit_state check_owner assemble get_incident_budget get_budget check_records
    require_unique list_actions sort_by same_actions select_rows insert_rows load_run check_graph
    check_outcomes check_verdicts delete_run generate usage_does_not_exceed_limits charged_budget
    charged_state consumed_event generate_for effective_limit reserve_incident_model_call validated
    save_audit_state commit place stable_id str
answered = refl

unanswered :
    used "inc" (generate no_hash accept_all echo "run" true "extract" started).1
    ≡ used "inc" started
unfolding generate generate_for reserve_incident_model_call
unanswered = rw loaded

generate-ok_example :
    (echo "extract" ≡ ok "extract")
    × (st : AuditWorkflowState) × (load_audit_state started "run" ≡ ok (some st))
    × (used st.summary.incident_id started < 6)
    × (used st.summary.incident_id
          (generate no_hash accept_all echo "run" false "extract" started).1
        ≡ suc (used st.summary.incident_id started))
generate-ok_example =
    generate-ok no_hash accept_all false echo "run" "extract" started "extract" answered

generate_uncharged_example :
    (generate no_hash accept_all echo "run" true "extract" started).0
    ≡ (generate no_hash accept_all fail "run" true "extract" started).0
generate_uncharged_example =
    generate_uncharged no_hash accept_all true echo fail "run" "extract" state started loaded
      unanswered
