-- ===== src/Rules/Chains.antt =====
-- internal/rules: er_no_circular_chain.go and class_no_circular_inheritance.go, which run one search on
-- different edges. `path` has the first element of the source's slice first, and a cycle is the list of
-- its nodes until it is printed. The recursion of `dfs` takes fuel. The order in which Go iterates over
-- the keys of `adj` is a parameter, `order`.
pub mod Invariant
pub mod Complete
pub mod Reports
mod Tests
use Prim.Native.String
use merm.Prelude.{
  ℕ, zero, suc, String, Bool, true, false, not, Option, none, some, List, [], ◌∷◌, ◌++◌, map,
  if◌then◌else◌, str_eq, contains, delete, keep, length,
}
use merm.Model.{Issue, Edge, Diagram}
use merm.Rules.Config.{Config}
use merm.Rules.Settings.{effective_severity}
use merm.Rules.Keys.{distinct}
use merm.Rules.State.{successors}
use merm.Rules.Cycles.{join}

-- the variables that `dfs` closes over
pub record Chain : Type 0 where
  pub visited : List String
  pub rec_stack : List String
  pub cycles : List (List String)

-- the edges of `ERNoCircularChain.Run`
unfoldable pub between_entities : Edge → Bool
between_entities e = not (str_eq e.from e.to)

-- the edges of `ClassNoCircularInheritance.Run`
unfoldable pub is_extension : Edge → Bool
is_extension e = str_eq e.type "extension"

-- `path[cycleStart:]` for the first place of a node on the path
unfoldable pub path_from : String → List String → Option (List String)
path_from k [] = none
path_from k (x ∷ xs) =
    let rest = path_from k xs in elim (str_eq x k) [ true ↦ some (x ∷ xs) | false ↦ rest ]

-- what happens at a neighbor in `recStack`
unfoldable pub close_chain : String → List String → Chain → Chain
close_chain neighbor path s = elim (path_from neighbor path) [
  | none ↦ s
  | some ids ↦ record s { cycles = s.cycles ++ ((ids ++ (neighbor ∷ [])) ∷ []) }
]

-- the loop of `dfs` over the neighbors, with the recursive call as an argument; whether it returns true
unfoldable pub scan_neighbors :
    (String → Chain → Option (Bool × Chain))
    → List String
    → List String
    → Chain
    → Option (Bool × Chain)
scan_neighbors dfs path [] s = some (false, s)
scan_neighbors dfs path (n ∷ ns) s = elim (contains n s.visited) [
  | false ↦ elim (dfs n s) [
    | none ↦ none
    | some (found, t) ↦ elim found [ true ↦ some (true, t) | false ↦ scan_neighbors dfs path ns t ]
  ]
  | true ↦ elim (contains n s.rec_stack) [
    | true ↦ some (true, close_chain n path s)
    | false ↦ scan_neighbors dfs path ns s
  ]
]

-- the first lines of `dfs`
unfoldable pub enter_node : String → Chain → Chain
enter_node node s = record s { visited = node ∷ s.visited; rec_stack = node ∷ s.rec_stack }

-- its last lines
unfoldable pub leave_node : String → Chain → Chain
leave_node node s = record s { rec_stack = delete node s.rec_stack }

-- `dfs`, on the edges that the rule follows
unfoldable pub dfs_chain : ℕ → List Edge → List String → String → Chain → Option (Bool × Chain)
dfs_chain zero edges path node s = none
dfs_chain (suc fuel) edges path node s =
    let path' = path ++ (node ∷ []) in
    elim (scan_neighbors (dfs_chain fuel edges path') path' (successors edges node)
      (enter_node node s)) [
        | none ↦ none
        | some (found, t) ↦ elim found [
          | true ↦ some (true, t)
          | false ↦ some (false, leave_node node t)
        ]
      ]

-- the loop that calls `dfs`
unfoldable pub visit_nodes : ℕ → List Edge → List String → Chain → Option Chain
visit_nodes fuel edges [] s = some s
visit_nodes fuel edges (n ∷ ns) s = elim (contains n s.visited) [
  | true ↦ visit_nodes fuel edges ns s
  | false ↦ elim (dfs_chain fuel edges [] n s) [
    | none ↦ none
    | some (found, t) ↦ visit_nodes fuel edges ns t
  ]
]

abbrev pub unvisited : Chain
unvisited = record { visited = []; rec_stack = []; cycles = [] }

-- all names at the ends of edges
abbrev pub ends_of : List Edge → List String
ends_of edges = map (λ e. e.from) edges ++ map (λ e. e.to) edges

-- the cycles that the search finds along some edges; `none` if the fuel runs out
unfoldable pub cycles_along : (List String → List String) → List Edge → Option (List (List String))
cycles_along order edges =
    elim (visit_nodes (length (ends_of edges)) edges (order (distinct (map (λ e. e.from) edges)))
      unvisited) [ none ↦ none | some s ↦ some s.cycles ]

-- the finding on a cycle
unfoldable pub chain_issue : String → String → Config → List String → Issue
chain_issue rule_id text cfg ids = record {
  rule_id = rule_id;
  severity = effective_severity rule_id cfg "error";
  message = String.◌++◌ text (join " -> " ids);
  line = none;
  column = none;
  fingerprint = "";
  context = none;
}

-- the last lines of both rules
unfoldable pub chain_issues :
    String → String → Config → Option (List (List String)) → Option (List Issue)
chain_issues rule_id text cfg none = none
chain_issues rule_id text cfg (some cycles) = some (map (chain_issue rule_id text cfg) cycles)

-- `ERNoCircularChain.Run`
unfoldable pub er_no_circular_chain :
    (List String → List String) → Diagram → Config → Option (List Issue)
er_no_circular_chain order d cfg =
    chain_issues "no-circular-chain" "circular entity relationship chain detected: " cfg
      (cycles_along order (keep between_entities d.edges))

-- `ClassNoCircularInheritance.Run`
unfoldable pub class_no_circular_inheritance :
    (List String → List String) → Diagram → Config → Option (List Issue)
class_no_circular_inheritance order d cfg =
    chain_issues "no-circular-inheritance" "circular inheritance detected: " cfg
      (cycles_along order (keep is_extension d.edges))
