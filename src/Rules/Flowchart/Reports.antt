-- ===== src/Rules/Flowchart/Reports.antt =====
-- internal/rules: which ids max_fanout.go, no_disconnected_nodes.go and no_duplicate_node_ids.go report.
use merm.Prelude.{
  ◌≡◌, ◌↔◌, ◌⊎◌, ◌<◌, refl, String, Bool, true, false, not, List, [], ◌∷◌, ◌++◌, map, arith,
  str_ltb, eq_iff, contains, keep, ltb, Any,
}
use merm.Prelude.Sort.{sort, sort-Any}
use merm.Model.{Issue, Node, Edge, Diagram}
use merm.Rules.Config.{Config}
use merm.Rules.Keys.{
  count, contains-append, contains-keep, contains-distinct, count-contains, Any-ids,
}
use merm.Rules.Flowchart.{
  froms, ids, outside_edges, is_exempt, disconnected_ids, disconnected_issue, no_disconnected_nodes,
  duplicate_ids, duplicate_issue, no_duplicate_node_ids,
}

contains_iff_Any : (k : String) (xs : List String) → (contains k xs ≡ true) ↔ Any (λ x. x ≡ k) xs
unfolding contains
contains_iff_Any k [] = ground arith
contains_iff_Any k (x ∷ xs) = ground (arith, eq_iff x k, contains_iff_Any k xs)

contains-sort : (k : String) (xs : List String) → contains k (sort str_ltb xs) ≡ contains k xs
contains-sort k xs = ground (
  arith,
  contains_iff_Any k xs,
  contains_iff_Any k (sort str_ltb xs),
  sort-Any str_ltb (λ x. x ≡ k) xs,
)

-- An id that is reported as a duplicate: two nodes have it, or the parser names it.
pub IsDuplicate : Diagram → String → Type 0
IsDuplicate d k = (1 < count k (ids d.nodes)) ⊎ (contains k d.duplicate_node_ids ≡ true)

duplicate_ids_iff :
    (d : Diagram) (k : String) → (contains k (duplicate_ids d) ≡ true) ↔ IsDuplicate d k
unfolding duplicate_ids IsDuplicate
duplicate_ids_iff d k =
    let twice : String → Bool = (λ id. ltb 1 (count id (ids d.nodes))) in
    ground (
      arith,
      contains-distinct k (keep twice (ids d.nodes) ++ d.duplicate_node_ids),
      contains-append k (keep twice (ids d.nodes)) d.duplicate_node_ids,
      contains-keep twice k (ids d.nodes),
      count-contains k (ids d.nodes),
    )

-- The findings are exactly those on the ids that two nodes have or that the parser names, whatever the
-- order in which Go iterates over the map of the ids.
pub no_duplicate_node_ids_iff :
    (order : List String → List String) (d : Diagram) (cfg : Config) (i : Issue)
    → ((k : String) (xs : List String) → contains k (order xs) ≡ contains k xs)
    → Any (λ j. j ≡ i) (no_duplicate_node_ids order d cfg)
      ↔ ((id : String) × IsDuplicate d id × (duplicate_issue d cfg id ≡ i))
unfolding no_duplicate_node_ids
no_duplicate_node_ids_iff order d cfg i h =
    let found = duplicate_ids d in
    Any-ids (duplicate_issue d cfg) i (sort str_ltb (order found))
      (λ k. ground (arith, h k found, contains-sort k (order found), duplicate_ids_iff d k))

-- A diagram of one node and no edges.
pub IsSingle : List Node → List Edge → Type 0
IsSingle nodes edges = (edges ≡ []) × ((n : Node) × (nodes ≡ n ∷ []))

-- An id that is reported as disconnected: a node's that is at no end of an edge, or one that the parser
-- names.
pub IsDisconnected : Diagram → String → Type 0
IsDisconnected d k =
    ((contains k (ids d.nodes) ≡ true)
      × (contains k (froms d.edges ++ map (λ e. e.to) d.edges) ≡ false))
    ⊎ (contains k d.disconnected_node_ids ≡ true)

is_exempt_iff :
    (nodes : List Node) (edges : List Edge) → (is_exempt nodes edges ≡ true) ↔ IsSingle nodes edges
unfolding is_exempt IsSingle
is_exempt_iff [] [] = ground arith
is_exempt_iff [] (e ∷ edges) = ground arith
is_exempt_iff (n ∷ []) [] = (λ h. (refl, (n, refl)), λ h. refl)
is_exempt_iff (n ∷ []) (e ∷ edges) = ground arith
is_exempt_iff (n ∷ m ∷ nodes) [] = ground arith
is_exempt_iff (n ∷ m ∷ nodes) (e ∷ edges) = ground arith

outside_edges_iff :
    (nodes : List Node) (edges : List Edge) (k : String)
    → (contains k (outside_edges nodes edges) ≡ true) ↔ (
        (contains k (ids nodes) ≡ true)
        × (contains k (froms edges ++ map (λ e. e.to) edges) ≡ false))
unfolding outside_edges contains
outside_edges_iff nodes [] k = ground arith
outside_edges_iff nodes (e ∷ edges) k =
    let used = froms (e ∷ edges) ++ map (λ f. f.to) (e ∷ edges) in
    ground (arith, contains-keep (λ id. not (contains id used)) k (ids nodes))

disconnected_ids_iff :
    (d : Diagram) (k : String)
    → (contains k (disconnected_ids d) ≡ true) ↔ (¬ IsSingle d.nodes d.edges × IsDisconnected d k)
unfolding disconnected_ids IsDisconnected contains
disconnected_ids_iff d k = ground (
  arith,
  is_exempt_iff d.nodes d.edges,
  contains-distinct k (outside_edges d.nodes d.edges ++ d.disconnected_node_ids),
  contains-append k (outside_edges d.nodes d.edges) d.disconnected_node_ids,
  outside_edges_iff d.nodes d.edges k,
)

-- The findings are none for a diagram of one node and no edges, and otherwise exactly those on the
-- nodes at no end of an edge and on the ids that the parser names, whatever the order in which Go
-- iterates over the map of the ids.
pub no_disconnected_nodes_iff :
    (order : List String → List String) (d : Diagram) (cfg : Config) (i : Issue)
    → ((k : String) (xs : List String) → contains k (order xs) ≡ contains k xs)
    → Any (λ j. j ≡ i) (no_disconnected_nodes order d cfg) ↔ (
        (id : String) × (¬ IsSingle d.nodes d.edges × IsDisconnected d id)
        × (disconnected_issue d cfg id ≡ i))
unfolding no_disconnected_nodes
no_disconnected_nodes_iff order d cfg i h =
    let found = disconnected_ids d in
    Any-ids (disconnected_issue d cfg) i (sort str_ltb (order found))
      (λ k. ground (arith, h k found, contains-sort k (order found), disconnected_ids_iff d k))
