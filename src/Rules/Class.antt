-- ===== src/Rules/Class.antt =====
-- internal/rules/class_no_duplicate_classes.go. The order in which Go iterates over a map's keys is a
-- parameter, `order`.
pub mod Duplicates
use Prim.Native.String
use merm.Prelude.{String, List, map, keep, ltb, none}
use merm.Model.{Issue, Node, Diagram}
use merm.Rules.Config.{Config}
use merm.Rules.Settings.{effective_severity}
use merm.Rules.Keys.{distinct, count, first_node, line_of, column_of}

-- the finding on a class
unfoldable pub duplicate_class_issue : Diagram → Config → String → Issue
duplicate_class_issue d cfg class_id = record {
  rule_id = "no-duplicate-classes";
  severity = effective_severity "no-duplicate-classes" cfg "error";
  message = String.◌++◌ "duplicate class definition: " class_id;
  line = line_of (first_node class_id d.nodes);
  column = column_of (first_node class_id d.nodes);
  fingerprint = "";
  context = none;
}

-- `ClassNoDuplicateClasses.Run`
unfoldable pub class_no_duplicate_classes :
    (List String → List String) → Diagram → Config → List Issue
class_no_duplicate_classes order d cfg = map (duplicate_class_issue d cfg) (
    keep (λ id. ltb 1 (count id (map (λ n. n.id) d.nodes)))
      (order (distinct (map (λ n. n.id) d.nodes))))
