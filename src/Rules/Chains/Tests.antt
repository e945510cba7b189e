-- ===== src/Rules/Chains/Tests.antt =====
-- The rules on circular chains and inheritance at a concrete diagram.
use merm.Prelude.{◌≡◌, refl, String, none, some, List, [], ◌∷◌, keep, contains}
use merm.Model.{Edge, Diagram}
use merm.Rules.Keys.{distinct}
use merm.Rules.State.{successors}
use merm.Rules.Chains.{
  between_entities, is_extension, path_from, close_chain, scan_neighbors, enter_node, leave_node,
  dfs_chain, visit_nodes, cycles_along, er_no_circular_chain, class_no_circular_inheritance,
}
use merm.Rules.Chains.Reports.{Reports, circular_iff}

abbrev edge : String → String → Edge
edge from to = record { from = from; to = to; type = "extension"; line = none; column = none }

-- two circles, with an edge from the second to the first
abbrev edges : List Edge
edges = edge "A" "B" ∷ edge "B" "A" ∷ edge "C" "A" ∷ edge "C" "D" ∷ edge "D" "C" ∷ []

abbrev circles : Diagram
circles = record {
  type = "er";
  direction = "";
  nodes = [];
  edges = edges;
  subgraphs = [];
  suppressions = [];
  source_node_ids = [];
  disconnected_node_ids = [];
  duplicate_node_ids = [];
  start_states = [];
}

abbrev order : List String → List String
order xs = xs

circular_iff_example :
    Reports order
      (λ k xs. refl)
      "circular entity relationship chain detected: "
      (keep between_entities edges)
      (er_no_circular_chain order circles [])
    × Reports order
        (λ k xs. refl)
        "circular inheritance detected: "
        (keep is_extension edges)
        (class_no_circular_inheritance order circles [])
circular_iff_example = circular_iff order (λ k xs. refl) circles []

-- the second circle is not found: `recStack` still holds the nodes of the first
second_missed : cycles_along order edges ≡ some (("A" ∷ "B" ∷ "A" ∷ []) ∷ [])
unfolding cycles_along visit_nodes dfs_chain scan_neighbors enter_node leave_node close_chain
    path_from successors distinct contains
second_missed = refl
