-- ===== src/Rules/Depth/Tests.antt =====
-- The rule on the depth of inheritance at a concrete diagram.
use merm.Prelude.{◌≡◌, ◌↔◌, refl, String, some, none, List, [], ◌∷◌, Any, pos, ℤ}
use merm.Model.{Issue, Edge, Diagram}
use merm.Rules.Config.{Config, int}
use merm.Rules.Depth.{class_max_inheritance_depth}
use merm.Rules.Depth.Reports.{IsBase, Deep, class_max_inheritance_depth_iff}

abbrev extends : String → String → Edge
extends from to = record { from = from; to = to; type = "extension"; line = none; column = none }

abbrev classes : Diagram
classes = record {
  type = "class";
  direction = "";
  nodes = [];
  edges = extends "B" "A" ∷ extends "C" "B" ∷ [];
  subgraphs = [];
  suppressions = [];
  source_node_ids = [];
  disconnected_node_ids = [];
  duplicate_node_ids = [];
  start_states = [];
}

abbrev order : List String → List String
order xs = xs

abbrev quote : String → String
quote s = s

abbrev no_text : ℤ → String
no_text n = ""

abbrev two : Config
two = ("max-inheritance-depth", ("limit", int (pos 2)) ∷ []) ∷ []

class_max_inheritance_depth_iff_example :
    (issues : List Issue) × (class_max_inheritance_depth quote no_text order classes two
      ≡ some issues)
    × ((i : Issue)
        → Any (λ j. j ≡ i) issues
          ↔ ((root : String) × IsBase classes root × Deep quote no_text classes two i root))
class_max_inheritance_depth_iff_example =
    class_max_inheritance_depth_iff quote no_text classes two order (λ k xs. refl)
