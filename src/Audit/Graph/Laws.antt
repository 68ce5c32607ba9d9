-- ===== src/Audit/Graph/Laws.antt =====
-- backend/app/audit/graph.py: what `validate` accepts.
use remedy_graph.Prelude.{
  String, ◌≡◌, refl, ◌↔◌, inl, inr, List, [], ◌∷◌, map, Bool, true, not, ◌&&◌, ◌==◌, eq_iff, any,
  all, member, distinct, arith,
}
use remedy_graph.Result.{result_cases, ok, is_ok}
use remedy_graph.Audit.Contracts.{EvidenceGraphNode, EvidenceGraphEdge}
use remedy_graph.Audit.Graph.Keys.{Records, key_eq, edge_value, record_keys, relations}
use remedy_graph.Audit.Graph.Validate.{
  has, unique, same_set, node_key, Relationship, relationship, relationship_eq, edge_ids,
  check_edges, resolve, validate,
}

relationship_eq_comm : (a b : Relationship) → relationship_eq a b ≡ relationship_eq b a
relationship_eq_comm a b = ground (
  arith,
  eq_iff a.0 b.0,
  eq_iff b.0 a.0,
  eq_iff a.1 b.1,
  eq_iff b.1 a.1,
  eq_iff (edge_value a.2) (edge_value b.2),
  eq_iff (edge_value b.2) (edge_value a.2),
)

-- no id, and no relationship, of the edges has been seen
abbrev fresh_ids : List EvidenceGraphEdge → List EvidenceGraphEdge → Bool
fresh_ids seen es = all (λ (e : EvidenceGraphEdge). not (member e.id (edge_ids seen))) es

abbrev fresh_relationships : List EvidenceGraphEdge → List EvidenceGraphEdge → Bool
fresh_relationships seen es =
    all
      (λ (e : EvidenceGraphEdge).
        not (has relationship_eq (relationship e) (map relationship seen)))
      es

fresh_ids-cons :
    (x : EvidenceGraphEdge) (seen es : List EvidenceGraphEdge)
    → fresh_ids (x ∷ seen) es ≡ (not (member x.id (edge_ids es)) && fresh_ids seen es)
fresh_ids-cons x seen [] = refl
fresh_ids-cons x seen (e ∷ es) =
    ground (arith, fresh_ids-cons x seen es, eq_iff e.id x.id, eq_iff x.id e.id)

fresh_relationships-cons :
    (x : EvidenceGraphEdge) (seen es : List EvidenceGraphEdge)
    → fresh_relationships (x ∷ seen) es ≡ (
        not (has relationship_eq (relationship x) (map relationship es))
        && fresh_relationships seen es)
fresh_relationships-cons x seen [] = refl
fresh_relationships-cons x seen (e ∷ es) = ground (
  arith,
  fresh_relationships-cons x seen es,
  relationship_eq_comm (relationship e) (relationship x),
)

abbrev known_ends : List String → List EvidenceGraphEdge → Bool
known_ends ids es =
    all (λ (e : EvidenceGraphEdge). member e.source_node_id ids && member e.target_node_id ids) es

check_edges-is_ok :
    (ids : List String) (seen es : List EvidenceGraphEdge)
    → is_ok (check_edges ids seen es) ≡ (
        known_ends ids es
        && distinct (edge_ids es)
        && unique relationship_eq (map relationship es)
        && fresh_ids seen es
        && fresh_relationships seen es)
unfolding check_edges
check_edges-is_ok ids seen [] = refl
check_edges-is_ok ids seen (e ∷ es) = ground (
  arith,
  fresh_ids-cons e seen es,
  fresh_relationships-cons e seen es,
  check_edges-is_ok ids (e ∷ seen) es,
)

any-not : {A : Type 0} (p : A → Bool) (xs : List A) → any (λ x. not (p x)) xs ≡ not (all p xs)
any-not p [] = refl
any-not p (x ∷ xs) = ground (arith, any-not p xs)

-- The graph of an audit: a node for each record, and the relationships of the records.
pub record IsGraph (nodes : List EvidenceGraphNode) (edges : List EvidenceGraphEdge) (r : Records)
    : Type 0 where
  pub node_ids : distinct (map (λ (n : EvidenceGraphNode). n.id) nodes) ≡ true
  pub one_node_each : unique key_eq (map node_key nodes) ≡ true
  pub records_covered : same_set key_eq (map node_key nodes) (record_keys r) ≡ true
  pub nodes_of_run : all (λ (n : EvidenceGraphNode). n.run_id == r.run_id) nodes ≡ true
  pub edges_of_run : all (λ (e : EvidenceGraphEdge). e.run_id == r.run_id) edges ≡ true
  pub ends_known : known_ends (map (λ (n : EvidenceGraphNode). n.id) nodes) edges ≡ true
  pub edge_ids_distinct : distinct (edge_ids edges) ≡ true
  pub one_edge_each : unique relationship_eq (map relationship edges) ≡ true
  pub relationships_covered :
      (expected : List Relationship) × (resolve nodes (relations r) ≡ ok expected)
      × (same_set relationship_eq (map relationship edges) expected ≡ true)

-- nothing has been seen before the first edge
fresh-nil :
    (es : List EvidenceGraphEdge) → (fresh_ids [] es ≡ true) × (fresh_relationships [] es ≡ true)
fresh-nil [] = (refl, refl)
fresh-nil (e ∷ es) = ground (arith, fresh-nil es)

-- `validate` accepts nodes and edges exactly when they are the graph of the records: distinct ids,
-- one node for each record and no other, all of the run, edges between nodes, and no relationship
-- twice, with the relationships of the records and no other.
pub validate-IsGraph :
    (nodes : List EvidenceGraphNode) (edges : List EvidenceGraphEdge) (r : Records)
    → (validate nodes edges r ≡ ok tt) ↔ IsGraph nodes edges r
unfolding validate
validate-IsGraph nodes edges r =
    let keys = map node_key nodes in
    let ids = map (λ (n : EvidenceGraphNode). n.id) nodes in
    elim (result_cases (resolve nodes (relations r))) [
      | inr (expected, e) ↦ ground (
        arith,
        any-not (λ (n : EvidenceGraphNode). n.run_id == r.run_id) nodes,
        any-not (λ (x : EvidenceGraphEdge). x.run_id == r.run_id) edges,
        any-not (λ k. has key_eq k (record_keys r)) keys,
        check_edges-is_ok ids [] edges,
        fresh-nil edges,
      )
      | inl (z, e) ↦ ground (arith, check_edges-is_ok ids [] edges)
    ]
