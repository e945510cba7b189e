-- ===== src/Rules/State.antt =====
-- internal/rules/state_no_unreachable.go: the search for the states that cannot be reached. The order
-- in which Go iterates over a map's keys is a parameter, `order`.
pub mod Search
pub mod Unreachable
use Prim.Native.String
use merm.Prelude.{
  ℕ, zero, suc, ◌+◌, ◌≡◌, String, Bool, true, false, not, Option, none, some, List, [], ◌∷◌, ◌++◌,
  map, if◌then◌else◌, str_eq, contains, keep, length,
}
use merm.Model.{Issue, Node, Edge, Diagram}
use merm.Rules.Config.{Config}
use merm.Rules.Settings.{effective_severity}

-- `adj[current]`
unfoldable pub successors : List Edge → String → List String
successors [] current = []
successors (e ∷ edges) current =
    let rest = successors edges current in
    elim (str_eq e.from current) [ true ↦ e.to ∷ rest | false ↦ rest ]

-- the states of a list, each once: the loop over `StartStates`
unfoldable pub add_starts : List String → List String → List String
add_starts [] queue = queue
add_starts (s ∷ states) queue =
    add_starts states (if contains s queue then queue else queue ++ (s ∷ []))

abbrev pub targets : List Edge → List String
targets edges = map (λ e. e.to) edges

-- the states without an incoming edge, each once
unfoldable pub sources : List Node → List Edge → List String
sources nodes edges =
    keep (λ id. not (contains id (targets edges))) (add_starts (map (λ n. n.id) nodes) [])

-- the initial queue, which holds the states that are reachable from the outset
unfoldable pub initial_queue : (List String → List String) → Diagram → List String
initial_queue order d = elim d.start_states [
  | [] ↦ order (sources d.nodes d.edges)
  | s ∷ states ↦ add_starts (s ∷ states) []
]

-- one neighbour: the reachable states, and the queue
unfoldable pub see : String → List String × List String → List String × List String
see neighbor (reachable, queue) =
    if contains neighbor reachable
    then (reachable, queue)
    else (neighbor ∷ reachable, queue ++ (neighbor ∷ []))

-- the loop over the neighbours
unfoldable pub visit : List String → List String × List String → List String × List String
visit [] s = s
visit (neighbor ∷ rest) s = visit rest (see neighbor s)

-- the loop over the queue, on fuel
unfoldable pub drain_queue : ℕ → List Edge → List String → List String → Option (List String)
drain_queue fuel edges [] reachable = some reachable
drain_queue zero edges (current ∷ queue) reachable = none
drain_queue (suc fuel) edges (current ∷ queue) reachable =
    let s = visit (successors edges current) (reachable, queue) in drain_queue fuel edges s.1 s.0

abbrev pub fuel_for : List String → List Edge → ℕ
fuel_for queue edges = length queue + length edges

-- the finding on a state
unfoldable pub unreachable_issue : Config → Node → Issue
unreachable_issue cfg node = record {
  rule_id = "no-unreachable-state";
  severity = effective_severity "no-unreachable-state" cfg "error";
  message = String.◌++◌ "unreachable state: " node.id;
  line = node.line;
  column = node.column;
  fingerprint = "";
  context = none;
}

-- the loop over the nodes
unfoldable pub unreachable_issues : List Node → List String → Config → List Issue
unreachable_issues [] reachable cfg = []
unreachable_issues (node ∷ nodes) reachable cfg =
    let rest = unreachable_issues nodes reachable cfg in
    elim (contains node.id reachable) [ true ↦ rest | false ↦ unreachable_issue cfg node ∷ rest ]

-- `StateNoUnreachable.Run`; `none` if the fuel runs out
unfoldable pub state_no_unreachable :
    (List String → List String) → Diagram → Config → Option (List Issue)
state_no_unreachable order d cfg =
    let queue = initial_queue order d in
    elim (drain_queue (fuel_for queue d.edges) d.edges queue queue) [
      | none ↦ none
      | some reachable ↦ some (unreachable_issues d.nodes reachable cfg)
    ]
