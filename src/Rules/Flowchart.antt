-- ===== src/Rules/Flowchart.antt =====
-- internal/rules: max_fanout.go, no_disconnected_nodes.go and no_duplicate_node_ids.go. The order in
-- which Go iterates over a map's keys is a parameter, `order`; so are the texts of numbers and of
-- quoted strings.
pub mod Reports
use Prim.Native.String
use merm.Prelude.{
  ℕ, ◌≡◌, String, Bool, true, false, not, ◌&&◌, Option, none, some, List, [], ◌∷◌, ◌++◌, map,
  if◌then◌else◌, str_eq, str_ltb, contains, keep, length, ltb, ℤ, ltb_ℤ, pos,
}
use merm.Prelude.Sort.{sort}
use merm.Model.{Issue, IssueContext, Node, Edge, Diagram}
use merm.Rules.Config.{Config}
use merm.Rules.Settings.{effective_severity}
use merm.Rules.Keys.{
  distinct, count, last_node, first_node, line_of, column_of, limit_of, node_subgraph_context,
}

abbrev pub froms : List Edge → List String
froms edges = map (λ e. e.from) edges

abbrev pub ids : List Node → List String
ids nodes = map (λ n. n.id) nodes

-- `edgeLocations[from]`
unfoldable pub first_edge : String → List Edge → Option Edge
first_edge from [] = none
first_edge from (e ∷ edges) =
    let rest = first_edge from edges in elim (str_eq e.from from) [ true ↦ some e | false ↦ rest ]

-- the place of a finding of `MaxFanout.Run`
unfoldable pub fanout_place : Diagram → String → Option ℤ × Option ℤ
fanout_place d node_id = elim (last_node node_id d.nodes) [
  | some node ↦ (node.line, node.column)
  | none ↦ elim (first_edge node_id d.edges) [
    | some edge ↦ (edge.line, edge.column)
    | none ↦ (none, none)
  ]
]

module _ (quote : String → String) (print : ℤ → String) where
  -- the finding of `MaxFanout.Run` on a node
  unfoldable pub fanout_issue : Diagram → Config → String → Issue
  fanout_issue d cfg node_id = record {
    rule_id = "max-fanout";
    severity = effective_severity "max-fanout" cfg "warning";
    message = String.◌++◌ "node " (
        String.◌++◌ (quote node_id) (
          String.◌++◌ " has fanout " (
            String.◌++◌ (print (pos (count node_id (froms d.edges))))
              (String.◌++◌ ", exceeding limit of " (print (limit_of "max-fanout" cfg (pos 5)))))));
    line = (fanout_place d node_id).0;
    column = (fanout_place d node_id).1;
    fingerprint = "";
    context = node_subgraph_context d node_id;
  }

  -- `MaxFanout.Run`
  unfoldable pub max_fanout : (List String → List String) → Diagram → Config → List Issue
  max_fanout order d cfg = map (fanout_issue d cfg) (
      keep (λ id. ltb_ℤ (limit_of "max-fanout" cfg (pos 5)) (pos (count id (froms d.edges))))
        (order (distinct (froms d.edges))))

-- the graph's part of the ids of `NoDisconnectedNodes.Run`
unfoldable pub outside_edges : List Node → List Edge → List String
outside_edges nodes [] = ids nodes
outside_edges nodes (e ∷ edges) =
    keep (λ id. not (contains id (froms (e ∷ edges) ++ map (λ f. f.to) (e ∷ edges)))) (ids nodes)

-- `singleNodeNoEdgesExempt`
unfoldable pub is_exempt : List Node → List Edge → Bool
is_exempt (n ∷ []) [] = true
is_exempt _ _ = false

-- `disconnectedIDs`
unfoldable pub disconnected_ids : Diagram → List String
disconnected_ids d =
    if is_exempt d.nodes d.edges
    then []
    else distinct (outside_edges d.nodes d.edges ++ d.disconnected_node_ids)

-- the finding of `NoDisconnectedNodes.Run` on a node
unfoldable pub disconnected_issue : Diagram → Config → String → Issue
disconnected_issue d cfg node_id = record {
  rule_id = "no-disconnected-nodes";
  severity = effective_severity "no-disconnected-nodes" cfg "error";
  message = String.◌++◌ "node is disconnected: " node_id;
  line = line_of (first_node node_id d.nodes);
  column = column_of (first_node node_id d.nodes);
  fingerprint = "";
  context = none;
}

-- `NoDisconnectedNodes.Run`
unfoldable pub no_disconnected_nodes : (List String → List String) → Diagram → Config → List Issue
no_disconnected_nodes order d cfg =
    map (disconnected_issue d cfg) (sort str_ltb (order (disconnected_ids d)))

-- `duplicateIDs`
unfoldable pub duplicate_ids : Diagram → List String
duplicate_ids d =
    distinct (keep (λ id. ltb 1 (count id (ids d.nodes))) (ids d.nodes) ++ d.duplicate_node_ids)

-- the finding of `NoDuplicateNodeIDs.Run` on an id
unfoldable pub duplicate_issue : Diagram → Config → String → Issue
duplicate_issue d cfg node_id = record {
  rule_id = "no-duplicate-node-ids";
  severity = effective_severity "no-duplicate-node-ids" cfg "error";
  message = String.◌++◌ "duplicate node ID: " node_id;
  line = line_of (last_node node_id d.nodes);
  column = column_of (last_node node_id d.nodes);
  fingerprint = "";
  context = none;
}

-- `NoDuplicateNodeIDs.Run`
unfoldable pub no_duplicate_node_ids : (List String → List String) → Diagram → Config → List Issue
no_duplicate_node_ids order d cfg =
    map (duplicate_issue d cfg) (sort str_ltb (order (duplicate_ids d)))
