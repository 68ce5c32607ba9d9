-- ===== src/Audit/Graph/Validate.antt =====
-- backend/app/audit/graph.py: `EvidenceGraphBuilder.validate`. A set is a list, and two sets are
-- equal when each holds the elements of the other.
use remedy_graph.Prelude.{
  String, List, [], ◌∷◌, map, Bool, true, false, not, ◌&&◌, ◌||◌, ◌==◌, any, all, member, distinct,
  if◌then◌else◌,
}
use remedy_graph.Result.{value_error, key_error, Result, ok, err, raise_if, ◌>>=◌, ◌>>◌}
use remedy_graph.Audit.Contracts.{GraphEdgeType, EvidenceGraphNode, EvidenceGraphEdge}
use remedy_graph.Audit.Graph.Keys.{
  Records, Key, key_eq, edge_value, record_keys, Relation, relations,
}

module _ {A : Type 0} (eq : A → A → Bool) where
  abbrev pub has : A → List A → Bool
  has x [] = false
  has x (y ∷ ys) = eq x y || has x ys

  -- len(xs) == len(set(xs))
  abbrev pub unique : List A → Bool
  unique [] = true
  unique (x ∷ xs) = not (has x xs) && unique xs

  -- set(xs) == set(ys)
  abbrev pub same_set : List A → List A → Bool
  same_set xs ys = all (λ x. has x ys) xs && all (λ y. has y xs) ys

abbrev pub node_key : EvidenceGraphNode → Key
node_key n = (n.node_type, n.record_id)

-- (source_node_id, target_node_id, edge_type)
abbrev pub Relationship : Type 0
Relationship = String × String × GraphEdgeType

abbrev pub relationship : EvidenceGraphEdge → Relationship
relationship e = (e.source_node_id, e.target_node_id, e.edge_type)

abbrev pub relationship_eq : Relationship → Relationship → Bool
relationship_eq a b = a.0 == b.0 && (a.1 == b.1 && edge_value a.2 == edge_value b.2)

abbrev pub edge_ids : List EvidenceGraphEdge → List String
edge_ids es = map (λ (e : EvidenceGraphEdge). e.id) es

-- the loop over the edges, with those that have passed
unfoldable pub check_edges :
    List String → List EvidenceGraphEdge → List EvidenceGraphEdge → Result (Unit {0})
check_edges node_ids seen [] = ok tt
check_edges node_ids seen (e ∷ es) = do
  raise_if (member e.id (edge_ids seen)) (value_error "evidence graph contains duplicate edge IDs")
  raise_if (not (member e.source_node_id node_ids) || not (member e.target_node_id node_ids))
      (value_error "evidence graph edge references an unknown node")
  raise_if (has relationship_eq (relationship e) (map relationship seen))
      (value_error "evidence graph contains a duplicate relationship")
  check_edges node_ids (e ∷ seen) es

-- node_by_record[key]; the keys of the nodes are distinct when this is reached
unfoldable pub node_of : List EvidenceGraphNode → Key → Result String
node_of [] k = err (key_error k.1)
node_of (n ∷ ns) k = if key_eq (node_key n) k then ok n.id else node_of ns k

-- the loops that fill `expected_edges`
unfoldable pub resolve : List EvidenceGraphNode → List Relation → Result (List Relationship)
unfolding node_of
resolve ns [] = ok []
resolve ns ((a, b, kind) ∷ rs) = do
  source ← node_of ns a
  target ← node_of ns b
  rest ← resolve ns rs
  ok ((source, target, kind) ∷ rest)

unfoldable pub validate :
    List EvidenceGraphNode → List EvidenceGraphEdge → Records → Result (Unit {0})
unfolding check_edges resolve
validate nodes edges r = do
  let node_ids = map (λ (n : EvidenceGraphNode). n.id) nodes
  let keys = map node_key nodes
  raise_if (not (distinct node_ids)) (value_error "evidence graph contains duplicate node IDs")
  raise_if (not (unique key_eq keys)) (value_error "evidence graph contains duplicate record nodes")
  raise_if (any (λ (n : EvidenceGraphNode). not (n.run_id == r.run_id)) nodes)
      (value_error "evidence graph contains a cross-run node")
  raise_if (any (λ (e : EvidenceGraphEdge). not (e.run_id == r.run_id)) edges)
      (value_error "evidence graph contains a cross-run edge")
  raise_if (any (λ k. not (has key_eq k (record_keys r))) keys)
      (value_error "evidence graph node has a missing or mismatched record type")
  raise_if (not (same_set key_eq keys (record_keys r)))
      (value_error "evidence graph does not contain exactly one node per record")
  check_edges node_ids [] edges
  expected ← resolve nodes (relations r)
  raise_if (not (same_set relationship_eq (map relationship edges) expected))
      (value_error "evidence graph relationships do not match audit records")
