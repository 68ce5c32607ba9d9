-- ===== src/Storage/Validate.antt =====
-- backend/app/storage.py: `_validate_audit_state`, in the steps of the source. A dictionary from ids
-- to records is looked up in the list of the records, whose ids are known to be distinct there.
use Prim.Native.String.{◌++◌ as ◌<>◌}
use remedy_graph.Prelude.{
  ℕ, String, Option, none, some, List, [], ◌∷◌, map, find, any, all, member, distinct, is_empty,
  not, Bool, true, false, ◌&&◌, ◌||◌, ◌==◌, eqb, lookup, if◌then◌else◌,
}
use remedy_graph.Result.{
  state_integrity, value_error, Result, ok, err, raise_if, or_raise, ◌>>=◌, ◌>>◌,
}
use remedy_graph.Models.{Project, Incident, ActionItem}
use remedy_graph.Audit.Contracts.{
  CompiledInvariant, DeterministicCheckSpec, EvidenceCitation, EvidenceRecord, citation,
  DeterministicCheckResult, ActionVerdict, AuditRunSummary, WorkflowEvent, AuditWorkflowState,
}
use remedy_graph.Audit.Graph.Keys.{Records}
use remedy_graph.Audit.Graph.Validate.{unique, validate}
use remedy_graph.Storage.{Store}
use remedy_graph.Storage.Incidents.{get_incident}
use remedy_graph.Storage.Guards.{get_run_summary, is_complete}

abbrev optional_eq : {A : Type 0} → (A → A → Bool) → Option A → Option A → Bool
optional_eq eq none none = true
optional_eq eq (some a) (some b) = eq a b
optional_eq eq _ _ = false

abbrev text_eq : String → String → Bool
text_eq a b = a == b

-- a == b, on the records
unfoldable pub action_eq : ActionItem → ActionItem → Bool
action_eq a b =
    a.id == b.id
    && a.incident_id == b.incident_id
    && a.text == b.text
    && optional_eq eqb a.source_line b.source_line
    && optional_eq text_eq a.source_section b.source_section
    && eqb a.order b.order

unfoldable pub citation_eq : EvidenceCitation → EvidenceCitation → Bool
citation_eq a b =
    a.evidence_id == b.evidence_id
    && optional_eq text_eq a.source_path b.source_path
    && optional_eq eqb a.line_start b.line_start
    && optional_eq eqb a.line_end b.line_end

-- `_require_unique`
unfoldable pub require_unique : String → Bool → Result (Unit {0})
require_unique label is_unique =
    raise_if (not is_unique) (state_integrity ("audit snapshot contains duplicate " <> label))

abbrev some_is : {A : Type 0} → (A → Bool) → Option A → Bool
some_is p none = false
some_is p (some a) = p a

module _ (state : AuditWorkflowState) where
  abbrev pub action_ids : List String
  action_ids = map (λ (a : ActionItem). a.id) state.actions

  abbrev pub invariant_of : String → Option CompiledInvariant
  invariant_of k = find (λ (i : CompiledInvariant). i.id == k) state.invariants

  abbrev pub spec_of : String → Option DeterministicCheckSpec
  spec_of k = find (λ (c : DeterministicCheckSpec). c.id == k) state.check_specs

  abbrev pub evidence_of : String → Option EvidenceRecord
  evidence_of k = find (λ (e : EvidenceRecord). e.id == k) state.evidence

  -- state_actions == incident_actions
  unfoldable pub same_actions : List ActionItem → Bool
  unfolding action_eq
  same_actions actions =
      all
        (λ (a : ActionItem).
          some_is (action_eq a) (find (λ (b : ActionItem). b.id == a.id) actions))
        state.actions
      && all (λ (b : ActionItem). member b.id action_ids) actions

  abbrev pub owns_evidence : EvidenceRecord → Bool
  owns_evidence e =
      e.run_id == state.summary.id
      && some_is (λ (i : CompiledInvariant). e.action_id == i.action_id)
          (invariant_of e.invariant_id)

  abbrev pub owns_result : DeterministicCheckResult → Bool
  owns_result r =
      r.run_id == state.summary.id
      && some_is (λ (c : DeterministicCheckSpec). r.invariant_id == c.invariant_id)
          (spec_of r.check_spec_id)
      && all
          (λ k. some_is (λ (e : EvidenceRecord). e.invariant_id == r.invariant_id) (evidence_of k))
          r.evidence_ids

  -- the invariants of a verdict belong to its action
  abbrev pub owns_invariants : ActionVerdict → Bool
  owns_invariants v =
      all (λ k. some_is (λ (i : CompiledInvariant). i.action_id == v.action_id) (invariant_of k))
        v.invariant_ids

  -- the citations of a verdict are those of evidence for its action
  abbrev pub owns_citations : ActionVerdict → Bool
  owns_citations v =
      all
        (λ (c : EvidenceCitation).
          some_is (λ (e : EvidenceRecord). e.action_id == v.action_id && citation_eq c (citation e))
            (evidence_of c.evidence_id))
        v.citations

  -- the loop over the verdicts
  unfoldable pub check_verdicts : List ActionVerdict → Result (Unit {0})
  check_verdicts [] = ok tt
  check_verdicts (v ∷ vs) = do
    raise_if (not (v.run_id == state.summary.id) || not (member v.action_id action_ids))
        (state_integrity "verdict ownership does not match run action")
    raise_if (not (owns_invariants v))
        (state_integrity "verdict references an invariant for another action")
    raise_if (not (owns_citations v)) (state_integrity "verdict citation does not belong to action")
    check_verdicts vs

  abbrev pub records_of : Incident → Records
  records_of incident = record {
    run_id = state.summary.id;
    incident = incident;
    actions = state.actions;
    invariants = state.invariants;
    evidence = state.evidence;
    checks = state.check_results;
    verdicts = state.verdicts;
  }

  -- `except ValueError as exc`
  abbrev pub as_integrity : Result (Unit {0}) → Result (Unit {0})
  as_integrity (err (value_error message)) = err (state_integrity message)
  as_integrity r = r

  -- the evidence graph
  unfoldable pub check_graph : Incident → Result (Unit {0})
  check_graph incident =
      if not (is_empty state.graph_nodes && is_empty state.graph_edges)
      then as_integrity (validate state.graph_nodes state.graph_edges (records_of incident))
      else raise_if
          (is_complete state.summary.status
            && not (
                is_empty state.actions
                && is_empty state.invariants
                && is_empty state.evidence
                && is_empty state.check_results
                && is_empty state.verdicts))
          (state_integrity "complete audit snapshot requires an evidence graph")

  -- actions, invariants, checks, evidence and their results
  unfoldable pub check_records : Incident → Result (Unit {0})
  check_records incident = do
    require_unique "actions" (distinct action_ids)
    raise_if (not (same_actions incident.actions))
        (state_integrity "audit actions do not exactly match the run incident")
    require_unique "invariants" (distinct (map (λ (i : CompiledInvariant). i.id) state.invariants))
    raise_if (any (λ (i : CompiledInvariant). not (member i.action_id action_ids)) state.invariants)
        (state_integrity "invariant action does not belong to run incident")
    require_unique "checks"
        (distinct (map (λ (c : DeterministicCheckSpec). c.id) state.check_specs))
    raise_if
        (any
          (λ (c : DeterministicCheckSpec). not (some_is (λ i. true) (invariant_of c.invariant_id)))
          state.check_specs)
        (state_integrity "check references an invariant outside the run")
    require_unique "evidence" (distinct (map (λ (e : EvidenceRecord). e.id) state.evidence))
    raise_if (any (λ (e : EvidenceRecord). not (owns_evidence e)) state.evidence)
        (state_integrity "evidence ownership does not match run invariant")
    require_unique "check results"
        (distinct (map (λ (r : DeterministicCheckResult). r.id) state.check_results))
    raise_if (any (λ (r : DeterministicCheckResult). not (owns_result r)) state.check_results)
        (state_integrity "check result ownership does not match run check")

  -- verdicts, events, budget and graph
  unfoldable pub check_outcomes : Incident → Result (Unit {0})
  check_outcomes incident = do
    require_unique "verdicts" (distinct (map (λ (v : ActionVerdict). v.id) state.verdicts))
    check_verdicts state.verdicts
    require_unique "events" (distinct (map (λ (e : WorkflowEvent). e.id) state.events))
    require_unique "event sequences"
        (unique eqb (map (λ (e : WorkflowEvent). e.sequence) state.events))
    raise_if (any (λ (e : WorkflowEvent). not (e.run_id == state.summary.id)) state.events)
        (state_integrity "workflow event belongs to another run")
    raise_if
        (any (λ (r : String × ℕ). not (some_is (λ i. true) (invariant_of r.0)))
          state.summary.budget.investigation_rounds)
        (state_integrity "budget references an invariant outside the run")
    check_graph incident

abbrev pub is_owner : Option AuditRunSummary → AuditRunSummary → Bool
is_owner none summary = true
is_owner (some existing) summary =
    existing.project_id == summary.project_id && existing.incident_id == summary.incident_id

abbrev pub owned_incident : Project → Option Incident → Result Incident
owned_incident project none = err (state_integrity "audit run references an unknown incident")
owned_incident project (some incident) =
    if some_is (text_eq project.id) incident.project_id
    then ok incident
    else err (state_integrity "audit run project does not own incident")

-- the project, the incident and the run that is there
unfoldable pub check_owner : Store → AuditRunSummary → Result Incident
check_owner s summary = do
  project ←
      or_raise (lookup summary.project_id s.projects)
        (state_integrity "audit run references an unknown project")
  incident ← owned_incident project (get_incident s summary.incident_id)
  raise_if (not (is_owner (get_run_summary s summary.id) summary))
      (state_integrity "audit run ownership is immutable")
  ok incident

unfoldable pub validate_audit_state : Store → AuditWorkflowState → Result (Unit {0})
validate_audit_state s state = do
  incident ← check_owner s state.summary
  check_records state incident
  check_outcomes state incident
