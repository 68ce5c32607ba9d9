-- ===== src/Audit/Graph/Keys.antt =====
-- backend/app/audit/graph.py: the names of nodes and edges, and the records that the nodes stand for.
use remedy_graph.Prelude.{
  String, List, [], ◌∷◌, ◌++◌, map, Option, none, some, Bool, ◌&&◌, ◌==◌, if◌then◌else◌,
}
use remedy_graph.Ids.{stable_id}
use remedy_graph.Models.{
  Verdict, verified, partial, missing, unverifiable, EvidenceKind, ActionItem, Incident,
}
use remedy_graph.Audit.Contracts.{
  GraphNodeType, incident, action, invariant, evidence, check, verdict, GraphEdgeType, contains,
  compiled_to, supported_by, contradicted_by, tested_by, checked_by, classified_as, evidence_gap,
  CheckOutcome, EvidenceRole, CompiledInvariant, EvidenceRecord, DeterministicCheckResult,
  ActionVerdict,
}

pub record Records : Type 0 where
  pub run_id : String
  pub incident : Incident
  pub actions : List ActionItem
  pub invariants : List CompiledInvariant
  pub evidence : List EvidenceRecord
  pub checks : List DeterministicCheckResult
  pub verdicts : List ActionVerdict

-- the values of the enumerations, which go into ids and labels
abbrev pub kind_value : GraphNodeType → String
kind_value incident = "incident"
kind_value action = "corrective_action"
kind_value invariant = "invariant"
kind_value evidence = "evidence"
kind_value check = "deterministic_check"
kind_value verdict = "verdict"

abbrev pub edge_value : GraphEdgeType → String
edge_value contains = "contains"
edge_value compiled_to = "compiled_to"
edge_value supported_by = "supported_by"
edge_value contradicted_by = "contradicted_by"
edge_value tested_by = "tested_by"
edge_value checked_by = "checked_by"
edge_value classified_as = "classified_as"
edge_value evidence_gap = "evidence_gap"

abbrev pub role_value : EvidenceRole → String
role_value EvidenceRole.supporting = "supporting"
role_value EvidenceRole.contradictory = "contradictory"
role_value EvidenceRole.supporting_only = "supporting_only"
role_value EvidenceRole.missing = "missing"
role_value EvidenceRole.unavailable = "unavailable"

abbrev pub outcome_value : CheckOutcome → String
outcome_value CheckOutcome.passed = "passed"
outcome_value CheckOutcome.failed = "failed"
outcome_value CheckOutcome.not_found = "not_found"
outcome_value CheckOutcome.error = "error"
outcome_value CheckOutcome.unsupported = "unsupported"
outcome_value CheckOutcome.unavailable = "unavailable"

abbrev pub verdict_value : Verdict → String
verdict_value verified = "VERIFIED"
verdict_value partial = "PARTIAL"
verdict_value missing = "MISSING"
verdict_value unverifiable = "UNVERIFIABLE"

-- `value or default`, on texts
abbrev pub or_text : Option String → String → String
or_text none default = default
or_text (some s) default = if s == "" then default else s

abbrev pub evidence_label : EvidenceRecord → String
evidence_label e = or_text e.source_path (role_value e.role)

abbrev by_kind : EvidenceKind → GraphEdgeType
by_kind EvidenceKind.test = tested_by
by_kind _ = supported_by

abbrev by_role : EvidenceRole → GraphEdgeType → GraphEdgeType
by_role EvidenceRole.contradictory otherwise = contradicted_by
by_role EvidenceRole.missing otherwise = evidence_gap
by_role EvidenceRole.unavailable otherwise = evidence_gap
by_role _ otherwise = otherwise

-- the relation of an invariant to an evidence record
unfoldable pub evidence_relation : EvidenceRecord → GraphEdgeType
evidence_relation e = by_role e.role (by_kind e.kind)

-- (node_type, record_id)
abbrev pub Key : Type 0
Key = GraphNodeType × String

abbrev pub key_eq : Key → Key → Bool
key_eq a b = kind_value a.0 == kind_value b.0 && a.1 == b.1

module _ (sha256_hex : String → String) (run_id : String) where
  unfoldable pub node_id : Key → String
  node_id k = stable_id sha256_hex "node" (run_id ∷ kind_value k.0 ∷ k.1 ∷ [])

  unfoldable pub edge_id : String → String → GraphEdgeType → String
  edge_id source target kind =
      stable_id sha256_hex "edge" (run_id ∷ source ∷ target ∷ edge_value kind ∷ [])

-- the keys of all records: `expected_record_keys`
unfoldable pub record_keys : Records → List Key
record_keys r =
    (incident, r.incident.id) ∷ map (λ (a : ActionItem). (action, a.id)) r.actions
    ++ (map (λ (i : CompiledInvariant). (invariant, i.id)) r.invariants
        ++ (map (λ (e : EvidenceRecord). (evidence, e.id)) r.evidence
            ++ (map (λ (c : DeterministicCheckResult). (check, c.id)) r.checks
                ++ map (λ (v : ActionVerdict). (verdict, v.id)) r.verdicts)))

-- The relationship that each record stands for, between two records.
abbrev pub Relation : Type 0
Relation = Key × Key × GraphEdgeType

unfoldable pub relations : Records → List Relation
relations r =
    map (λ (a : ActionItem). ((incident, r.incident.id), (action, a.id), contains)) r.actions
    ++ (map (λ (i : CompiledInvariant). ((action, i.action_id), (invariant, i.id), compiled_to))
          r.invariants
        ++ (map
              (λ (e : EvidenceRecord).
                ((invariant, e.invariant_id), (evidence, e.id), evidence_relation e))
              r.evidence
            ++ (map
                  (λ (c : DeterministicCheckResult).
                    ((invariant, c.invariant_id), (check, c.id), checked_by))
                  r.checks
                ++ map
                    (λ (v : ActionVerdict). ((action, v.action_id), (verdict, v.id), classified_as))
                    r.verdicts)))
