-- ===== src/Rules/Loops.antt =====
-- internal/rules: er_no_self_referential.go and state_no_circular_transitions.go, which both look for
-- edges from an element to itself, and state_max_transitions.go.
pub mod Reports
use Prim.Native.String
use merm.Prelude.{
  ℕ, String, Bool, true, false, Option, none, List, [], ◌∷◌, map, str_eq, keep, ltb, ltb_ℤ, ℤ, pos,
}
use merm.Model.{Issue, Edge, Diagram}
use merm.Rules.Config.{Config}
use merm.Rules.Settings.{effective_severity}
use merm.Rules.Keys.{distinct, count, last_node, line_of, column_of, limit_of}

-- the finding of `ERNoSelfReferential.Run` on an edge
unfoldable pub self_referential_issue : Config → Edge → Issue
self_referential_issue cfg e = record {
  rule_id = "no-self-referential";
  severity = effective_severity "no-self-referential" cfg "warning";
  message = String.◌++◌ "self-referential entity relationship: " e.from;
  line = e.line;
  column = e.column;
  fingerprint = "";
  context = none;
}

-- the finding of `StateNoCircularTransitions.Run` on an edge
unfoldable pub self_loop_issue : Config → Edge → Issue
self_loop_issue cfg e = record {
  rule_id = "no-circular-transitions";
  severity = effective_severity "no-circular-transitions" cfg "error";
  message = String.◌++◌ "self-loop state transition: " e.from;
  line = e.line;
  column = e.column;
  fingerprint = "";
  context = none;
}

-- the loop over the edges that both have
unfoldable pub loop_issues : (Edge → Issue) → List Edge → List Issue
loop_issues issue_of [] = []
loop_issues issue_of (e ∷ edges) =
    let rest = loop_issues issue_of edges in
    elim (str_eq e.from e.to) [ true ↦ issue_of e ∷ rest | false ↦ rest ]

-- `ERNoSelfReferential.Run`
unfoldable pub er_no_self_referential : Diagram → Config → List Issue
er_no_self_referential d cfg = loop_issues (self_referential_issue cfg) d.edges

-- `StateNoCircularTransitions.Run`
unfoldable pub state_no_circular_transitions : Diagram → Config → List Issue
state_no_circular_transitions d cfg = loop_issues (self_loop_issue cfg) d.edges

-- `outgoing[state]`
unfoldable pub outgoing : Diagram → String → ℕ
outgoing d state_id = count state_id (map (λ e. e.from) d.edges)

module _ (quote : String → String) (print : ℤ → String) where
  -- the finding of `StateMaxTransitions.Run` on a state
  unfoldable pub transitions_issue : Diagram → Config → String → Issue
  transitions_issue d cfg state_id = record {
    rule_id = "max-transitions";
    severity = effective_severity "max-transitions" cfg "warning";
    message = String.◌++◌ "state " (
        String.◌++◌ (quote state_id) (
          String.◌++◌ " has " (
            String.◌++◌ (print (pos (outgoing d state_id))) (
              String.◌++◌ " outgoing transitions, exceeding limit of "
                (print (limit_of "max-transitions" cfg (pos 10)))))));
    line = line_of (last_node state_id d.nodes);
    column = column_of (last_node state_id d.nodes);
    fingerprint = "";
    context = none;
  }

  -- `StateMaxTransitions.Run`; the order in which Go iterates over the map is `order`
  unfoldable pub state_max_transitions : (List String → List String) → Diagram → Config → List Issue
  state_max_transitions order d cfg = map (transitions_issue d cfg) (
      keep (λ id. ltb_ℤ (limit_of "max-transitions" cfg (pos 10)) (pos (outgoing d id)))
        (order (distinct (map (λ e. e.from) d.edges))))
