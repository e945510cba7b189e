-- ===== src/Rules/Sequence.antt =====
-- internal/rules: sequence_no_undefined_actors.go, sequence_no_duplicate_actors.go and
-- sequence_max_nesting.go. The order in which Go iterates over a map's keys is a parameter, `order`.
pub mod Actors
use Prim.Native.String
use merm.Prelude.{
  ◌≡◌, String, Bool, true, false, not, ◌&&◌, ◌||◌, Option, none, some, List, [], ◌∷◌, ◌++◌, map,
  if◌then◌else◌, str_eq, contains, keep, ltb, ℤ,
}
use merm.Model.{Issue, Node, Edge, Diagram}
use merm.Rules.Config.{Config}
use merm.Rules.Settings.{effective_severity}
use merm.Rules.Keys.{distinct, count, first_node, line_of, column_of}

abbrev pub ids : List Node → List String
ids nodes = map (λ n. n.id) nodes

-- an actor that an edge may write into `undefinedRefs`
abbrev is_undefined : List Node → String → Bool
is_undefined nodes actor = not (str_eq actor "") && not (contains actor (ids nodes))

-- the keys of `undefinedRefs`, with repetitions
unfoldable pub undefined_refs : List Node → List Edge → List String
undefined_refs nodes [] = []
undefined_refs nodes (e ∷ edges) =
    keep (is_undefined nodes) (e.from ∷ e.to ∷ []) ++ undefined_refs nodes edges

-- the last edge at an actor
unfoldable pub last_edge : String → List Edge → Option Edge
last_edge actor [] = none
last_edge actor (e ∷ edges) =
    let rest = last_edge actor edges in
    elim rest [
      | some f ↦ some f
      | none ↦ if str_eq e.from actor || str_eq e.to actor then some e else none
    ]

abbrev edge_line : Option Edge → Option ℤ
edge_line none = none
edge_line (some e) = e.line

abbrev edge_column : Option Edge → Option ℤ
edge_column none = none
edge_column (some e) = e.column

-- the finding of `SequenceNoUndefinedActors.Run` on an actor
unfoldable pub undefined_issue : Diagram → Config → String → Issue
undefined_issue d cfg actor = record {
  rule_id = "no-undefined-actors";
  severity = effective_severity "no-undefined-actors" cfg "error";
  message = String.◌++◌ "undefined actor reference: " actor;
  line = edge_line (last_edge actor d.edges);
  column = edge_column (last_edge actor d.edges);
  fingerprint = "";
  context = none;
}

-- `SequenceNoUndefinedActors.Run`
unfoldable pub sequence_no_undefined_actors :
    (List String → List String) → Diagram → Config → List Issue
sequence_no_undefined_actors order d cfg =
    map (undefined_issue d cfg) (order (distinct (undefined_refs d.nodes d.edges)))

-- the finding of `SequenceNoDuplicateActors.Run` on an actor
unfoldable pub duplicate_actor_issue : Diagram → Config → String → Issue
duplicate_actor_issue d cfg actor = record {
  rule_id = "no-duplicate-actors";
  severity = effective_severity "no-duplicate-actors" cfg "error";
  message = String.◌++◌ "duplicate actor definition: " actor;
  line = line_of (first_node actor d.nodes);
  column = column_of (first_node actor d.nodes);
  fingerprint = "";
  context = none;
}

-- `SequenceNoDuplicateActors.Run`
unfoldable pub sequence_no_duplicate_actors :
    (List String → List String) → Diagram → Config → List Issue
sequence_no_duplicate_actors order d cfg =
    map (duplicate_actor_issue d cfg)
      (keep (λ id. ltb 1 (count id (ids d.nodes))) (order (distinct (ids d.nodes))))

-- `SequenceMaxNesting.Run`, a placeholder
unfoldable pub sequence_max_nesting : Diagram → Config → List Issue
sequence_max_nesting d cfg = []
