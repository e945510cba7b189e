-- ===== src/Rules/Cycles.antt =====
-- internal/rules/no_cycles.go: the depth-first search for directed cycles. `stack` has the last
-- element of the source's slice first. The recursion of `dfs` takes fuel. The order in which Go iterates
-- over the keys of `adj` is a parameter, `order`.
pub mod Walks
pub mod Invariant
pub mod Complete
pub mod Reports
use Prim.Native.String
use merm.Prelude.{
  ℕ, zero, suc, ◌+◌, ◌≡◌, String, Bool, true, false, not, ◌&&◌, Option, none, some, List, [], ◌∷◌,
  ◌++◌, map, if◌then◌else◌, str_eq, str_ltb, contains, delete, keep, length, lookup, ℤ,
}
use merm.Model.{Issue, IssueContext, Node, Edge, Diagram}
use merm.Rules.Config.{Value, flag, Config}
use merm.Rules.Settings.{effective_severity}
use merm.Rules.Keys.{distinct, last_node, node_subgraph_context}

-- the variables that `dfs` closes over
pub record Search : Type 0 where
  pub visited : List String
  pub on_stack : List String
  pub stack : List String
  pub seen_cycles : List String
  pub issues : List Issue

-- the option `allow-self-loop`
unfoldable pub allows_self_loops : Config → Bool
allows_self_loops cfg = elim (lookup "no-cycles" cfg) [
  | none ↦ false
  | some rc ↦ elim (lookup "allow-self-loop" rc) [
    | none ↦ false
    | some raw ↦ elim raw [ flag value ↦ value | _ ↦ false ]
  ]
]

-- `adj[node]`
unfoldable pub out_edges : String → List Edge → List Edge
out_edges id [] = []
out_edges id (e ∷ edges) =
    let rest = out_edges id edges in elim (str_eq e.from id) [ true ↦ e ∷ rest | false ↦ rest ]

-- `strings.Join`
unfoldable pub join : String → List String → String
join sep [] = ""
join sep (s ∷ []) = s
join sep (s ∷ t ∷ rest) = String.◌++◌ s (String.◌++◌ sep (join sep (t ∷ rest)))

-- `stack[cycleStart:]` for the last place of a node on the stack
unfoldable pub segment : String → List String → Option (List String)
segment next [] = none
segment next (id ∷ stack) = elim (str_eq id next) [
  | true ↦ some (id ∷ [])
  | false ↦ elim (segment next stack) [ none ↦ none | some ids ↦ some (ids ++ (id ∷ [])) ]
]

-- a list without its last element
unfoldable pub but_last : List String → List String
but_last [] = []
but_last (x ∷ []) = []
but_last (x ∷ y ∷ xs) = x ∷ but_last (y ∷ xs)

abbrev last_is : String → List String → Bool
last_is k [] = false
last_is k (x ∷ []) = str_eq k x
last_is k (x ∷ y ∷ xs) = last_is k (y ∷ xs)

-- the ring of a cycle: the list without a last element that repeats the first
unfoldable pub ring : List String → List String
ring [] = []
ring (x ∷ []) = x ∷ []
ring (x ∷ y ∷ xs) = if last_is x (y ∷ xs) then but_last (x ∷ y ∷ xs) else x ∷ y ∷ xs

-- the loop that looks for the first of the least elements: what stands before it, and from it on
unfoldable pub split_least : List String → List String × List String
split_least [] = ([], [])
split_least (x ∷ xs) =
    let (before, least) = split_least xs in
    elim least [
      | [] ↦ ([], x ∷ xs)
      | y ∷ ys ↦ if str_ltb y x then (x ∷ before, y ∷ ys) else ([], x ∷ xs)
    ]

-- `normalizedCycleKey`
unfoldable pub normalized_cycle_key : List String → String
normalized_cycle_key nodes =
    let (before, least) = split_least (ring nodes) in join "->" (least ++ before)

-- the message on a cycle
unfoldable pub cycle_message : List String → String
cycle_message nodes = String.◌++◌ "directed cycle detected: " (join " -> " nodes)

-- the finding on a cycle that an edge closes
unfoldable pub cycle_issue : Diagram → Config → Edge → List String → Issue
cycle_issue d cfg edge nodes = record {
  rule_id = "no-cycles";
  severity = effective_severity "no-cycles" cfg "error";
  message = cycle_message nodes;
  line = elim (last_node edge.to d.nodes) [ none ↦ edge.line | some n ↦ n.line ];
  column = elim (last_node edge.to d.nodes) [ none ↦ edge.column | some n ↦ n.column ];
  fingerprint = "";
  context = node_subgraph_context d edge.to;
}

-- what happens at an edge to a node on the stack
unfoldable pub close_cycle : Diagram → Config → Edge → Search → Search
close_cycle d cfg edge s = elim (segment edge.to s.stack) [
  | none ↦ s
  | some ids ↦
      let nodes = ids ++ (edge.to ∷ []) in
      let key = normalized_cycle_key nodes in
      if contains key s.seen_cycles then s else record s {
        seen_cycles = key ∷ s.seen_cycles;
        issues = s.issues ++ (cycle_issue d cfg edge nodes ∷ []);
      }
]

-- the first lines of `dfs`
unfoldable pub enter : String → Search → Search
enter id s = record s { visited = id ∷ s.visited; on_stack = id ∷ s.on_stack; stack = id ∷ s.stack }

abbrev pub behind : List String → List String
behind [] = []
behind (x ∷ xs) = xs

-- its last lines
unfoldable pub leave : String → Search → Search
leave id s = record s { stack = behind s.stack; on_stack = delete id s.on_stack }

-- an edge that the search leaves out
unfoldable pub is_skipped : Config → Edge → Bool
is_skipped cfg e = allows_self_loops cfg && str_eq e.from e.to

-- its loop over the edges, with the recursive call as an argument
unfoldable pub scan_edges :
    (String → Search → Option Search) → Diagram → Config → List Edge → Search → Option Search
scan_edges dfs d cfg [] s = some s
scan_edges dfs d cfg (e ∷ edges) s = elim (is_skipped cfg e) [
  | true ↦ scan_edges dfs d cfg edges s
  | false ↦ elim (contains e.to s.visited) [
    | false ↦ elim (dfs e.to s) [ none ↦ none | some t ↦ scan_edges dfs d cfg edges t ]
    | true ↦
        scan_edges dfs d cfg edges (if contains e.to s.on_stack then close_cycle d cfg e s else s)
  ]
]

-- `dfs`
unfoldable pub dfs : ℕ → Diagram → Config → String → Search → Option Search
dfs zero d cfg id s = none
dfs (suc fuel) d cfg id s =
    elim (scan_edges (dfs fuel d cfg) d cfg (out_edges id d.edges) (enter id s)) [
      | none ↦ none
      | some t ↦ some (leave id t)
    ]

-- the loops that call `dfs`
unfoldable pub visit_roots : ℕ → Diagram → Config → List String → Search → Option Search
visit_roots fuel d cfg [] s = some s
visit_roots fuel d cfg (id ∷ ids) s = elim (contains id s.visited) [
  | true ↦ visit_roots fuel d cfg ids s
  | false ↦ elim (dfs fuel d cfg id s) [ none ↦ none | some t ↦ visit_roots fuel d cfg ids t ]
]

-- all names that the search can meet
abbrev pub names : Diagram → List String
names d = map (λ n. n.id) d.nodes ++ (map (λ e. e.from) d.edges ++ map (λ e. e.to) d.edges)

abbrev pub start : Search
start = record { visited = []; on_stack = []; stack = []; seen_cycles = []; issues = [] }

-- `NoCycles.Run`; `none` if the fuel runs out
unfoldable pub no_cycles : (List String → List String) → Diagram → Config → Option (List Issue)
no_cycles order d cfg =
    let roots = map (λ n. n.id) d.nodes ++ order (distinct (map (λ e. e.from) d.edges)) in
    elim (visit_roots (length (names d)) d cfg roots start) [ none ↦ none | some s ↦ some s.issues ]
