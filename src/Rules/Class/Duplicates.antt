-- ===== src/Rules/Class/Duplicates.antt =====
-- internal/rules/class_no_duplicate_classes.go: which classes the rule reports.
use merm.Prelude.{◌≡◌, ◌↔◌, ◌<◌, String, List, map, contains, keep, ltb, Any}
use merm.Model.{Issue, Diagram}
use merm.Rules.Config.{Config}
use merm.Rules.Keys.{distinct, count, Any-ids, count_over_iff}
use merm.Rules.Class.{duplicate_class_issue, class_no_duplicate_classes}

-- The findings are exactly those on the ids that more than one class has, whatever the order in which
-- Go iterates over the map of the counts.
pub class_no_duplicate_classes_iff :
    (order : List String → List String) (d : Diagram) (cfg : Config) (i : Issue)
    → ((k : String) (xs : List String) → contains k (order xs) ≡ contains k xs)
    → Any (λ j. j ≡ i) (class_no_duplicate_classes order d cfg) ↔ (
        (id : String) × (1 < count id (map (λ n. n.id) d.nodes))
        × (duplicate_class_issue d cfg id ≡ i))
unfolding class_no_duplicate_classes
class_no_duplicate_classes_iff order d cfg i h =
    let ids = map (λ n. n.id) d.nodes in
    Any-ids (duplicate_class_issue d cfg) i
      (keep (λ id. ltb 1 (count id ids)) (order (distinct ids))) (count_over_iff order ids 1 h)
