-- ===== src/Rules/State/Unreachable.antt =====
-- internal/rules/state_no_unreachable.go: what the rule reports.
use merm.Prelude.{
  ◌≡◌, ◌↔◌, ◌⊎◌, refl, String, true, false, not, ◌||◌, some, List, [], ◌∷◌, ◌++◌, arith, map,
  eq_iff, contains, Any, Bool-cases, inl, inr,
}
use merm.Model.{Issue, Node, Edge, Diagram}
use merm.Rules.Keys.{contains-append, contains-keep}
use merm.Rules.Config.{Config}
use merm.Rules.State.{
  targets, add_starts, sources, initial_queue, unreachable_issue, unreachable_issues,
  state_no_unreachable,
}
use merm.Rules.State.Search.{HasEdge, Reach, drain_queue_iff}

-- The initial states: those that the diagram names, or the states that no edge leads to if it names
-- none.
abbrev pub IsInitial : Diagram → String → Type 0
IsInitial d k =
    (contains k d.start_states ≡ true)
    ⊎ ((d.start_states ≡ []) × Any (λ n. n.id ≡ k) d.nodes × (contains k (targets d.edges) ≡ false))

-- The states that edges lead to from an initial one.
pub data IsReachable (d : Diagram) : String → Type 0 where
  initial : {x : String} → IsInitial d x → IsReachable d x
  step : {x y : String} → IsReachable d x → HasEdge d.edges x y → IsReachable d y

contains-add_starts :
    (k : String) (states queue : List String)
    → contains k (add_starts states queue) ≡ (contains k states || contains k queue)
unfolding contains add_starts
contains-add_starts k [] queue = refl
contains-add_starts k (s ∷ states) queue = ground (
  arith,
  eq_iff s k,
  contains-append k queue (s ∷ []),
  contains-add_starts k states queue,
  contains-add_starts k states (queue ++ (s ∷ [])),
)

contains-map_id :
    (k : String) (nodes : List Node)
    → (contains k (map (λ n. n.id) nodes) ≡ true) ↔ Any (λ n. n.id ≡ k) nodes
unfolding contains
contains-map_id k [] = ground arith
contains-map_id k (n ∷ nodes) = ground (arith, eq_iff n.id k, contains-map_id k nodes)

sources_iff :
    (k : String) (nodes : List Node) (edges : List Edge)
    → (contains k (sources nodes edges) ≡ true)
      ↔ (Any (λ n. n.id ≡ k) nodes × (contains k (targets edges) ≡ false))
unfolding sources contains
sources_iff k nodes edges = ground (
  arith,
  contains-keep (λ id. not (contains id (targets edges))) k (add_starts (map (λ n. n.id) nodes) []),
  contains-add_starts k (map (λ n. n.id) nodes) [],
  contains-map_id k nodes,
)

IsInitial-of_starts :
    (order : List String → List String) (d : Diagram) (states : List String) (k : String)
    → ((xs : List String) → contains k (order xs) ≡ contains k xs)
    → d.start_states ≡ states
    → (contains k (initial_queue order d) ≡ true) ↔ IsInitial d k
unfolding initial_queue contains
IsInitial-of_starts order d [] k h e =
    rw (e, initial_queue)
      (ground (arith, h (sources d.nodes d.edges), sources_iff k d.nodes d.edges))
IsInitial-of_starts order d (s ∷ states) k h e =
    rw (e, initial_queue) (ground (arith, contains-add_starts k (s ∷ states) []))

Reach-IsReachable :
    (order : List String → List String) (d : Diagram)
    → ((k : String) (xs : List String) → contains k (order xs) ≡ contains k xs)
    → {k : String} → Reach d.edges (initial_queue order d) k
    → IsReachable d k
Reach-IsReachable order d h {k} (Reach.start c) =
    IsReachable.initial ((IsInitial-of_starts order d d.start_states k (h k) refl).0 c)
Reach-IsReachable order d h (Reach.step r s) = IsReachable.step (Reach-IsReachable order d h r) s

IsReachable-Reach :
    (order : List String → List String) (d : Diagram)
    → ((k : String) (xs : List String) → contains k (order xs) ≡ contains k xs)
    → {k : String} → IsReachable d k
    → Reach d.edges (initial_queue order d) k
IsReachable-Reach order d h {k} (IsReachable.initial c) =
    Reach.start ((IsInitial-of_starts order d d.start_states k (h k) refl).1 c)
IsReachable-Reach order d h (IsReachable.step r s) = Reach.step (IsReachable-Reach order d h r) s

unreachable_issues_iff :
    (nodes : List Node) (reachable : List String) (cfg : Config) (i : Issue)
    → Any (λ j. j ≡ i) (unreachable_issues nodes reachable cfg)
      ↔ Any (λ n. (contains n.id reachable ≡ false) × (unreachable_issue cfg n ≡ i)) nodes
unfolding unreachable_issues
unreachable_issues_iff [] reachable cfg i = ground arith
unreachable_issues_iff (n ∷ nodes) reachable cfg i = elim (Bool-cases (contains n.id reachable)) [
  | inl yes' ↦
      rw (yes', unreachable_issues) (ground (arith, unreachable_issues_iff nodes reachable cfg i))
  | inr no' ↦
      rw (no', unreachable_issues) (ground (arith, unreachable_issues_iff nodes reachable cfg i))
]

-- a test and a predicate that agree, on some element
Any-same :
    (d : Diagram) (l : List String) (cfg : Config) (i : Issue) (nodes : List Node)
    → ((k : String) → (contains k l ≡ true) ↔ IsReachable d k)
    → Any (λ n. (contains n.id l ≡ false) × (unreachable_issue cfg n ≡ i)) nodes
      ↔ Any (λ n. ¬ IsReachable d n.id × (unreachable_issue cfg n ≡ i)) nodes
Any-same d l cfg i [] h = ground arith
Any-same d l cfg i (n ∷ nodes) h = ground (arith, h n.id, Any-same d l cfg i nodes h)

-- The rule ends and reports exactly the states of the diagram that are not reachable, whatever the
-- order in which Go iterates over the map of the states.
pub state_no_unreachable_iff :
    (order : List String → List String) (d : Diagram) (cfg : Config)
    → ((k : String) (xs : List String) → contains k (order xs) ≡ contains k xs)
    → (issues : List Issue) × (state_no_unreachable order d cfg ≡ some issues)
      × ((i : Issue)
          → Any (λ j. j ≡ i) issues
            ↔ Any (λ n. ¬ IsReachable d n.id × (unreachable_issue cfg n ≡ i)) d.nodes)
unfolding state_no_unreachable
state_no_unreachable_iff order d cfg h =
    let (l, ends, all') = drain_queue_iff d.edges (initial_queue order d) in
    let same : (k : String) → (contains k l ≡ true) ↔ IsReachable d k = (λ k. (
      λ c. Reach-IsReachable order d h ((all' k).0 c),
      λ r. (all' k).1 (IsReachable-Reach order d h r),
    )) in
    (
      unreachable_issues d.nodes l cfg,
      ground (arith, ends),
      λ i. (
        λ a. (Any-same d l cfg i d.nodes same).0 ((unreachable_issues_iff d.nodes l cfg i).0 a),
        λ a. (unreachable_issues_iff d.nodes l cfg i).1 ((Any-same d l cfg i d.nodes same).1 a),
      ),
    )
