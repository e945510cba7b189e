-- ===== src/Rules/Loops/Reports.antt =====
-- internal/rules: what er_no_self_referential.go, state_no_circular_transitions.go and
-- state_max_transitions.go report.
use merm.Prelude.{
  true, ◌≡◌, ◌↔◌, String, List, [], ◌∷◌, map, arith, eq_iff, contains, keep, Any, ltb_ℤ, ℤ, pos,
}
use merm.Model.{Issue, Edge, Diagram}
use merm.Rules.Config.{Config}
use merm.Rules.Keys.{distinct, count, limit_of, Any-ids, over_iff}
use merm.Rules.Loops.{
  loop_issues, self_referential_issue, self_loop_issue, er_no_self_referential,
  state_no_circular_transitions, outgoing, transitions_issue, state_max_transitions,
}

loop_issues_iff :
    (issue_of : Edge → Issue) (i : Issue) (edges : List Edge)
    → Any (λ j. j ≡ i) (loop_issues issue_of edges)
      ↔ Any (λ e. (e.from ≡ e.to) × (issue_of e ≡ i)) edges
unfolding loop_issues
loop_issues_iff issue_of i [] = ground arith
loop_issues_iff issue_of i (e ∷ edges) =
    ground (arith, eq_iff e.from e.to, loop_issues_iff issue_of i edges)

-- The two rules report exactly the edges from an element to itself.
pub self_loops_iff :
    (d : Diagram) (cfg : Config) (i : Issue)
    → (Any (λ j. j ≡ i) (er_no_self_referential d cfg)
        ↔ Any (λ e. (e.from ≡ e.to) × (self_referential_issue cfg e ≡ i)) d.edges)
      × (Any (λ j. j ≡ i) (state_no_circular_transitions d cfg)
          ↔ Any (λ e. (e.from ≡ e.to) × (self_loop_issue cfg e ≡ i)) d.edges)
unfolding er_no_self_referential state_no_circular_transitions
self_loops_iff d cfg i = (
  loop_issues_iff (self_referential_issue cfg) i d.edges,
  loop_issues_iff (self_loop_issue cfg) i d.edges,
)

-- The findings are exactly those on the states with more outgoing edges than the limit, whatever the
-- order in which Go iterates over the map of the counts.
pub state_max_transitions_iff :
    (order : List String → List String) (quote : String → String) (print : ℤ → String) (d : Diagram)
    (cfg : Config) (i : Issue)
    → ((k : String) (xs : List String) → contains k (order xs) ≡ contains k xs)
    → Any (λ j. j ≡ i) (state_max_transitions quote print order d cfg) ↔ (
        (id : String) × ((contains id (map (λ e. e.from) d.edges) ≡ true)
          × (ltb_ℤ (limit_of "max-transitions" cfg (pos 10)) (pos (outgoing d id)) ≡ true))
        × (transitions_issue quote print d cfg id ≡ i))
unfolding state_max_transitions outgoing
state_max_transitions_iff order quote print d cfg i h =
    let froms = map (λ e. e.from) d.edges in
    let limit = limit_of "max-transitions" cfg (pos 10) in
    Any-ids (transitions_issue quote print d cfg) i
      (keep (λ id. ltb_ℤ limit (pos (count id froms))) (order (distinct froms)))
      (over_iff order froms limit h)
