-- ===== src/Tests/Graphs.antt =====
-- The evidence graph of the sample incident.
use Prim.Native.String.{slice, count}
use remedy_graph.Ids.{stable_id, join}
use remedy_graph.Prelude.{String, ◌-◌, refl, lookup, insert, ◌≡◌, ◌↔◌, List, [], ◌∷◌}
use remedy_graph.Result.{ok}
use remedy_graph.Models.{EvidenceKind}
use remedy_graph.Audit.Contracts.{EvidenceRole, EvidenceGraphEdge, GraphEdgeType, GraphNodeType}
use remedy_graph.Audit.Graph.Keys.{
  Records, node_id, edge_id, record_keys, relations, evidence_relation,
}
use remedy_graph.Audit.Graph.Validate.{validate, check_edges, resolve, node_of}
use remedy_graph.Audit.Graph.{edge, name, build, build_nodes, build_edges, traverse, map_from}
use remedy_graph.Audit.Graph.Laws.{IsGraph, validate-IsGraph}
use remedy_graph.Tests.Samples.{cap_retries, outage, invariant_sample, evidence_sample}

-- a stand-in for the hash that tells the edges apart
abbrev last_part : String → String
last_part s = slice s (count s - 20) (count s)

abbrev records : Records
records = record {
  run_id = "run";
  incident = outage;
  actions = cap_retries ∷ [];
  invariants = invariant_sample ∷ [];
  evidence = evidence_sample "e1" EvidenceKind.code EvidenceRole.supporting ∷ [];
  checks = [];
  verdicts = [];
}

abbrev edges : List EvidenceGraphEdge
edges =
    edge last_part records (name last_part records GraphNodeType.incident "inc")
      (name last_part records GraphNodeType.action "a1") GraphEdgeType.contains
    ∷ edge last_part records (name last_part records GraphNodeType.action "a1")
        (name last_part records GraphNodeType.invariant "i1") GraphEdgeType.compiled_to
    ∷ edge last_part records (name last_part records GraphNodeType.invariant "i1")
        (name last_part records GraphNodeType.evidence "e1") GraphEdgeType.supported_by
    ∷ []

built : build last_part records ≡ ok (build_nodes last_part records, edges)
unfolding build build_edges build_nodes traverse map_from lookup insert node_id edge_id stable_id
    join validate check_edges resolve node_of record_keys relations evidence_relation
built = refl

validate-IsGraph_example :
    (validate (build_nodes last_part records) edges records ≡ ok tt)
    ↔ IsGraph (build_nodes last_part records) edges records
validate-IsGraph_example = validate-IsGraph (build_nodes last_part records) edges records
