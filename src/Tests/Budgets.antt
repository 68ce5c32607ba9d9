-- ===== src/Tests/Budgets.antt =====
-- Budgets: a tracker with one call left, and a store that has used five of an incident's calls.
use remedy_graph.Prelude.{
  ◌↔◌, ◌<◌, ◌+◌, ◌≤◌, String, ◌≡◌, refl, List, [], ◌∷◌, Bool, true, false, suc, arith, ◌==◌, ◌&&◌,
  if◌then◌else◌, lookup,
}
use remedy_graph.Result.{is_ok}
use remedy_graph.Audit.Contracts.{BudgetUsage, usage_does_not_exceed_limits}
use remedy_graph.Audit.Budget.{BudgetTracker, rounds_of}
use remedy_graph.Audit.Budget.Laws.{
  Call, model, round, check, is_model, is_round, granted, grants_bounded,
}
use remedy_graph.Storage.{Store}
use remedy_graph.Storage.Budget.{or_fresh, get_incident_budget, reserve_incident_model_call}
use remedy_graph.Storage.Budget.Laws
use remedy_graph.Storage.Budget.Laws.{
  is_known, reserve_granted, Request, used, reserve, reserve_all, grants_per_incident,
  reserve_error_unchanged, used-reserve,
}
use remedy_graph.Tests.Samples.{outage}

abbrev five_used : BudgetUsage
five_used = record {
  model_calls_used = 5;
  model_calls_limit = 6;
  investigation_round_limit = 1;
  investigation_rounds = [];
  deterministic_checks_run = 0;
}

abbrev tracker : BudgetTracker
tracker = record { usage = five_used }

abbrev calls : List Call
calls = model ∷ round "i1" ∷ check ∷ model ∷ round "i1" ∷ []

grants_bounded_example :
    (tracker.usage.model_calls_used + granted is_model tracker calls
      ≤ tracker.usage.model_calls_limit)
    × (rounds_of "i1" tracker.usage.investigation_rounds + granted (is_round "i1") tracker calls
        ≤ tracker.usage.investigation_round_limit)
unfolding usage_does_not_exceed_limits
grants_bounded_example = grants_bounded tracker calls "i1" refl

abbrev accept_all : Store → Bool
accept_all s = true

abbrev store : Store
store = record {
  projects = [];
  incidents = ("inc", outage) ∷ [];
  corrective_actions = [];
  repository_index_metadata = [];
  incident_budget_counters = ("inc", five_used) ∷ [];
  audit_runs = [];
  compiled_invariants = [];
  deterministic_checks = [];
  evidence = [];
  deterministic_check_results = [];
  verdicts = [];
  evidence_graph_nodes = [];
  evidence_graph_edges = [];
  workflow_events = [];
  budget_counters = [];
  guard_specs = [];
  guard_approvals = [];
  guard_executions = [];
}

abbrev request : String → Request
request i = record { locked = false; incident_id = i; limit = 6 }

abbrev requests : List Request
requests = request "inc" ∷ request "other" ∷ request "inc" ∷ []

grants_per_incident_example :
    (used "inc" store + Laws.granted accept_all "inc" requests store ≤ 6)
    × (used "inc" (reserve_all accept_all requests store)
        ≡ used "inc" store + Laws.granted accept_all "inc" requests store)
unfolding lookup
grants_per_incident_example =
    grants_per_incident accept_all "inc" requests store
      (unfold used get_incident_budget in omega arith)

reserve_error_unchanged_example : (reserve accept_all (request "other") store).1 ≡ store
unfolding reserve_incident_model_call lookup
reserve_error_unchanged_example = reserve_error_unchanged accept_all (request "other") store refl

used-reserve_example : used "inc" (reserve accept_all (request "inc") store).1 ≡ (
    if "inc" == "inc" && is_ok (reserve accept_all (request "inc") store).0
    then suc (used "inc" store)
    else used "inc" store)
used-reserve_example = used-reserve accept_all "inc" (request "inc") store

reserve_granted_example : (is_ok (reserve accept_all (request "inc") store).0 ≡ true) ↔ (
    (is_known (lookup "inc" store.incidents) ≡ true)
    × (usage_does_not_exceed_limits (or_fresh (get_incident_budget store "inc") 6) ≡ true)
    × ((or_fresh (get_incident_budget store "inc") 6).model_calls_used
        < (or_fresh (get_incident_budget store "inc") 6).model_calls_limit)
    × ((or_fresh (get_incident_budget store "inc") 6).model_calls_used < 6)
    × ((or_fresh (get_incident_budget store "inc") 6).model_calls_used < 6))
reserve_granted_example = reserve_granted accept_all (request "inc") store (λ t. refl) refl
