-- ===== src/Engine/Fresh.antt =====
-- internal/rules: what the engine relies on of the findings of the rules.
use merm.Prelude.{
  ◌≡◌, inl, inr, refl, String, true, List, [], ◌∷◌, map, arith, eq_iff, str_eq, contains, All,
  Bool-cases, ℤ,
}
use merm.Model.{Issue, Node, Edge, Diagram}
use merm.Rules.Config.{Config}
use merm.Rules.Settings.{is_allowed_severity, effective_severity, effective_severity_allowed}
use merm.Rules.Flowchart.{
  fanout_issue, max_fanout, disconnected_issue, no_disconnected_nodes, duplicate_issue,
  no_duplicate_node_ids,
}
use merm.Rules.Sequence.{
  undefined_issue, sequence_no_undefined_actors, duplicate_actor_issue,
  sequence_no_duplicate_actors,
}
use merm.Rules.Class.{duplicate_class_issue, class_no_duplicate_classes}
use merm.Rules.Loops.{
  loop_issues, self_referential_issue, er_no_self_referential, self_loop_issue,
  state_no_circular_transitions, transitions_issue, state_max_transitions,
}
use merm.Rules.State.{unreachable_issue, unreachable_issues}
use merm.Engine.Order.Total.{IsFresh}

allowed-IsFresh :
    (i : Issue) → is_allowed_severity i.severity ≡ true → i.fingerprint ≡ "" → IsFresh i
allowed-IsFresh i s f = record {
  severity =
      ground
        (arith, eq_iff i.severity "error", eq_iff i.severity "warning", eq_iff i.severity "info");
  fingerprint = f;
}

map-IsFresh :
    (f : String → Issue) (ids : List String)
    → ((k : String) → IsFresh (f k))
    → All IsFresh (map f ids)
map-IsFresh f [] h = tt
map-IsFresh f (k ∷ ids) h = (h k, map-IsFresh f ids h)

loop_issues-IsFresh :
    (f : Edge → Issue) (edges : List Edge)
    → ((e : Edge) → IsFresh (f e))
    → All IsFresh (loop_issues f edges)
unfolding loop_issues
loop_issues-IsFresh f [] h = tt
loop_issues-IsFresh f (e ∷ edges) h = elim (Bool-cases (str_eq e.from e.to)) [
  | inl yes' ↦ rw (yes', loop_issues) (h e, loop_issues-IsFresh f edges h)
  | inr no' ↦ rw (no', loop_issues) (loop_issues-IsFresh f edges h)
]

unreachable_issues-IsFresh :
    (nodes : List Node) (reachable : List String) (cfg : Config)
    → All IsFresh (unreachable_issues nodes reachable cfg)
unfolding unreachable_issues unreachable_issue
unreachable_issues-IsFresh [] reachable cfg = tt
unreachable_issues-IsFresh (n ∷ nodes) reachable cfg =
    let rest = unreachable_issues-IsFresh nodes reachable cfg in
    let here =
      allowed-IsFresh (unreachable_issue cfg n)
        (effective_severity_allowed "no-unreachable-state" cfg "error" refl) refl in
    elim (Bool-cases (contains n.id reachable)) [
      | inl yes' ↦ rw (yes', unreachable_issues) rest
      | inr no' ↦ rw (no', unreachable_issues) (here, rest)
    ]

-- The findings of the rules have an allowed severity, whatever the configuration holds, and no
-- fingerprint: those on fanout, disconnected nodes, duplicate ids, undefined and duplicate actors,
-- duplicate classes, self-references, self-loops, transitions and unreachable states.
pub findings-IsFresh :
    (order : List String → List String) (quote : String → String) (print : ℤ → String)
    (reachable : List String) (d : Diagram) (cfg : Config)
    → All IsFresh (max_fanout quote print order d cfg)
      × All IsFresh (no_disconnected_nodes order d cfg)
      × All IsFresh (no_duplicate_node_ids order d cfg)
      × All IsFresh (sequence_no_undefined_actors order d cfg)
      × All IsFresh (sequence_no_duplicate_actors order d cfg)
      × All IsFresh (class_no_duplicate_classes order d cfg)
      × All IsFresh (er_no_self_referential d cfg)
      × All IsFresh (state_no_circular_transitions d cfg)
      × All IsFresh (state_max_transitions quote print order d cfg)
      × All IsFresh (unreachable_issues d.nodes reachable cfg)
unfolding max_fanout fanout_issue no_disconnected_nodes disconnected_issue no_duplicate_node_ids
    duplicate_issue sequence_no_undefined_actors undefined_issue sequence_no_duplicate_actors
    duplicate_actor_issue class_no_duplicate_classes duplicate_class_issue er_no_self_referential
    self_referential_issue state_no_circular_transitions self_loop_issue state_max_transitions
    transitions_issue
findings-IsFresh order quote print reachable d cfg =
    let fresh : (rule_id default : String)
        → is_allowed_severity default ≡ true
        → is_allowed_severity (effective_severity rule_id cfg default) ≡ true =
      (λ rule_id default h. effective_severity_allowed rule_id cfg default h) in
    (
      map-IsFresh _ _ (λ k. allowed-IsFresh _ (fresh "max-fanout" "warning" refl) refl),
      map-IsFresh _ _ (λ k. allowed-IsFresh _ (fresh "no-disconnected-nodes" "error" refl) refl),
      map-IsFresh _ _ (λ k. allowed-IsFresh _ (fresh "no-duplicate-node-ids" "error" refl) refl),
      map-IsFresh _ _ (λ k. allowed-IsFresh _ (fresh "no-undefined-actors" "error" refl) refl),
      map-IsFresh _ _ (λ k. allowed-IsFresh _ (fresh "no-duplicate-actors" "error" refl) refl),
      map-IsFresh _ _ (λ k. allowed-IsFresh _ (fresh "no-duplicate-classes" "error" refl) refl),
      loop_issues-IsFresh _ _
          (λ e. allowed-IsFresh _ (fresh "no-self-referential" "warning" refl) refl),
      loop_issues-IsFresh _ _
          (λ e. allowed-IsFresh _ (fresh "no-circular-transitions" "error" refl) refl),
      map-IsFresh _ _ (λ k. allowed-IsFresh _ (fresh "max-transitions" "warning" refl) refl),
      unreachable_issues-IsFresh d.nodes reachable cfg,
    )
