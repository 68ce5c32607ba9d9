-- ===== src/Audit/Graph.antt =====
-- backend/app/audit/graph.py: the evidence graph of an audit, built and validated. The keyword
-- arguments of `build` and `validate` are a record, `Records`.
pub mod Keys
pub mod Validate
pub mod Laws
use remedy_graph.Prelude.{
  String, List, [], ◌∷◌, ◌++◌, map, Option, none, some, Dict, lookup, insert, if◌then◌else◌,
}
use remedy_graph.Result.{key_error, Result, ok, err, or_raise, ◌>>=◌, ◌>>◌}
use remedy_graph.Models.{ActionItem}
use remedy_graph.Audit.Contracts.{
  GraphNodeType, GraphEdgeType, CompiledInvariant, EvidenceRecord, DeterministicCheckResult,
  ActionVerdict, EvidenceGraphNode, EvidenceGraphEdge,
}
use remedy_graph.Audit.Graph.Keys.{
  Records, Key, node_id, edge_id, evidence_relation, evidence_label, outcome_value, verdict_value,
  or_text,
}
use remedy_graph.Audit.Graph.Validate.{validate}

-- {item.id: node(kind, item.id, …) for item in items}
unfoldable pub map_from : (String → String) → Dict String → List String → Dict String
map_from name m [] = m
map_from name m (x ∷ xs) = map_from name (insert x (name x) m) xs

-- m[k]
abbrev pub at : Dict String → String → Result String
at m k = or_raise (lookup k m) (key_error k)

-- [f(x) for x in xs], where `f` may raise
unfoldable pub traverse : {A B : Type 0} → (A → Result B) → List A → Result (List B)
traverse f [] = ok []
traverse f (x ∷ xs) = do ok ((← f x) ∷ (← traverse f xs))

module _ (sha256_hex : String → String) (r : Records) where
  abbrev pub name : GraphNodeType → String → String
  name kind id = node_id sha256_hex r.run_id (kind, id)

  -- `node` of `build`
  abbrev pub node : GraphNodeType → String → String → EvidenceGraphNode
  node kind id label = record {
    id = name kind id;
    run_id = r.run_id;
    node_type = kind;
    record_id = id;
    label = label;
  }

  -- `edge` of `build`
  abbrev pub edge : String → String → GraphEdgeType → EvidenceGraphEdge
  edge source target kind = record {
    id = edge_id sha256_hex r.run_id source target kind;
    run_id = r.run_id;
    source_node_id = source;
    target_node_id = target;
    edge_type = kind;
  }

  unfoldable pub build_nodes : List EvidenceGraphNode
  build_nodes =
      node GraphNodeType.incident r.incident.id r.incident.title
        ∷ map (λ (a : ActionItem). node GraphNodeType.action a.id a.text) r.actions
      ++ (map (λ (i : CompiledInvariant). node GraphNodeType.invariant i.id i.statement)
            r.invariants
          ++ (map (λ (e : EvidenceRecord). node GraphNodeType.evidence e.id (evidence_label e))
                r.evidence
              ++ (map
                    (λ (c : DeterministicCheckResult).
                      node GraphNodeType.check c.id (outcome_value c.outcome))
                    r.checks
                  ++ map
                      (λ (v : ActionVerdict).
                        node GraphNodeType.verdict v.id (verdict_value v.verdict))
                      r.verdicts)))

  abbrev pub action_nodes : Dict String
  action_nodes = map_from (name GraphNodeType.action) [] (map (λ (a : ActionItem). a.id) r.actions)

  abbrev pub invariant_nodes : Dict String
  invariant_nodes =
      map_from (name GraphNodeType.invariant) []
        (map (λ (i : CompiledInvariant). i.id) r.invariants)

  abbrev pub contains_edges : List EvidenceGraphEdge
  contains_edges =
      map
        (λ (x : String × String).
          edge (name GraphNodeType.incident r.incident.id) x.1 GraphEdgeType.contains)
        action_nodes

  abbrev pub compiled_edge : CompiledInvariant → Result EvidenceGraphEdge
  compiled_edge i = do
    source ← at action_nodes i.action_id
    target ← at invariant_nodes i.id
    ok (edge source target GraphEdgeType.compiled_to)

  abbrev pub evidence_edge : EvidenceRecord → Result EvidenceGraphEdge
  evidence_edge e = do
    source ← at invariant_nodes e.invariant_id
    ok (edge source (name GraphNodeType.evidence e.id) (evidence_relation e))

  abbrev pub check_edge : DeterministicCheckResult → Result EvidenceGraphEdge
  check_edge c = do
    source ← at invariant_nodes c.invariant_id
    ok (edge source (name GraphNodeType.check c.id) GraphEdgeType.checked_by)

  abbrev pub verdict_edge : ActionVerdict → Result EvidenceGraphEdge
  verdict_edge v = do
    source ← at action_nodes v.action_id
    ok (edge source (name GraphNodeType.verdict v.id) GraphEdgeType.classified_as)

  unfoldable pub build_edges : Result (List EvidenceGraphEdge)
  build_edges = do
    compiled ← traverse compiled_edge r.invariants
    evidence ← traverse evidence_edge r.evidence
    checks ← traverse check_edge r.checks
    verdicts ← traverse verdict_edge r.verdicts
    ok (contains_edges ++ (compiled ++ (evidence ++ (checks ++ verdicts))))

  unfoldable pub build : Result (List EvidenceGraphNode × List EvidenceGraphEdge)
  build = do edges ← build_edges; validate build_nodes edges r; ok (build_nodes, edges)
