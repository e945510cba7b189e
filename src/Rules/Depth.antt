-- ===== src/Rules/Depth.antt =====
-- internal/rules/class_max_inheritance_depth.go: how deep classes are inherited. The set `visited`, which
-- `calculateInheritanceDepth` restores, is an argument; its recursion takes fuel. The order in which Go
-- iterates over the map of the degrees is a parameter, `order`, and so are the quoted text of an id and the
-- decimal text of a number.
pub mod Descents
pub mod Reports
mod Tests
use Prim.Native.String
use merm.Prelude.{
  ℕ, zero, suc, String, Bool, true, false, Option, none, some, List, [], ◌∷◌, ◌++◌, map,
  if◌then◌else◌, str_eq, contains, keep, length, ltb, ltb_ℤ, ℤ, pos, ◌==◌,
}
use merm.Model.{Issue, Edge, Diagram}
use merm.Rules.Config.{Config}
use merm.Rules.Settings.{effective_severity}
use merm.Rules.Keys.{distinct, count, last_node, line_of, column_of, limit_of}
use merm.Rules.Chains.{is_extension}

-- `reverseAdj[node]`
unfoldable pub children : List Edge → String → List String
children [] node = []
children (e ∷ edges) node =
    let rest = children edges node in
    elim (str_eq e.to node) [ true ↦ e.from ∷ rest | false ↦ rest ]

-- the loop over the children, with the recursive call as an argument
unfoldable pub deepest_child : (String → Option ℕ) → List String → ℕ → Option ℕ
deepest_child depth [] most = some most
deepest_child depth (c ∷ cs) most = elim (depth c) [
  | none ↦ none
  | some d ↦ deepest_child depth cs (if ltb most d then d else most)
]

-- `calculateInheritanceDepth`, on the extensions
unfoldable pub calculate_inheritance_depth : ℕ → List Edge → String → List String → Option ℕ
calculate_inheritance_depth zero edges node visited = none
calculate_inheritance_depth (suc fuel) edges node visited = elim (contains node visited) [
  | true ↦ some 0
  | false ↦
      elim (deepest_child (λ c. calculate_inheritance_depth fuel edges c (node ∷ visited))
        (children edges node) 0) [ none ↦ none | some most ↦ some (suc most) ]
]

abbrev pub extensions : Diagram → List Edge
extensions d = keep is_extension d.edges

-- the keys of `indegree`
abbrev pub class_ids : Diagram → List String
class_ids d =
    map (λ n. n.id) d.nodes ++ (map (λ e. e.from) (extensions d) ++ map (λ e. e.to) (extensions d))

-- `roots`
unfoldable pub base_classes : (List String → List String) → Diagram → List String
base_classes order d =
    keep (λ id. count id (map (λ e. e.from) (extensions d)) == 0) (order (distinct (class_ids d)))

module _ (quote : String → String) (print : ℤ → String) where
  -- the finding on a base class and its depth
  unfoldable pub depth_issue : Diagram → Config → String → ℕ → Issue
  depth_issue d cfg root depth = record {
    rule_id = "max-inheritance-depth";
    severity = effective_severity "max-inheritance-depth" cfg "warning";
    message = String.◌++◌ "inheritance depth " (
        String.◌++◌ (print (pos depth)) (
          String.◌++◌ " from " (
            String.◌++◌ (quote root) (
              String.◌++◌ " exceeds limit "
                (print (limit_of "max-inheritance-depth" cfg (pos 5)))))));
    line = line_of (last_node root d.nodes);
    column = column_of (last_node root d.nodes);
    fingerprint = "";
    context = none;
  }

  -- the loop over the base classes
  unfoldable pub depth_issues : Diagram → Config → List String → Option (List Issue)
  depth_issues d cfg [] = some []
  depth_issues d cfg (root ∷ roots) =
      elim (calculate_inheritance_depth (suc (length (class_ids d))) (extensions d) root []) [
        | none ↦ none
        | some depth ↦ elim (depth_issues d cfg roots) [
          | none ↦ none
          | some issues ↦
              if ltb_ℤ (limit_of "max-inheritance-depth" cfg (pos 5)) (pos depth)
              then some (depth_issue d cfg root depth ∷ issues)
              else some issues
        ]
      ]

  -- `ClassMaxInheritanceDepth.Run`
  unfoldable pub class_max_inheritance_depth :
      (List String → List String) → Diagram → Config → Option (List Issue)
  class_max_inheritance_depth order d cfg = depth_issues d cfg (base_classes order d)
