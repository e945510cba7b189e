-- ===== src/Rules/Tests.antt =====
-- The theorems on internal/rules at concrete inputs.
use merm.Prelude.{
  ◌≡◌, ◌↔◌, refl, String, true, false, none, some, List, [], ◌∷◌, pos, contains, Any, All, str_eq,
  lookup, inl, inr, ℤ,
}
use merm.Strings.{
  trim_space, trim_left, trim_right, is_space, to_lower, lower, strip_prefix, cut, has_char,
  all_chars,
}
use merm.Model.{Issue, Node, Edge, Diagram}
use merm.Rules.Config.{Config, int}
use merm.Rules.Selector.{
  SuppressionSelector, IsSelector, print_selector, parse_suppression_selector, strip_bang,
  cut_or_all, matches_pattern, is_selector_prefix, is_selector_value, is_nonspace,
  parse-print_selector, print-parse-IsSelector,
}
use merm.Rules.Settings.{ok, normalize_meta_key, validate_config, validate_rule, resolve_severity}
use merm.Rules.RuleId.{
  normalize_config_rule_id, normalize_trimmed, built_in_rule_ids, is_valid_segment,
  is_segment_start, unknown_id, normalize_config_rule_id_iff, Names,
}
use merm.Rules.Normalize.{
  normalize_config, validated, normalize_rules, add_rule, merge_settings, normalize_keys, assign,
  IsKnown, normalize_config-IsKnown,
}
use merm.Rules.Flowchart.{disconnected_issue, no_disconnected_nodes}
use merm.Rules.Flowchart.Reports.{IsSingle, IsDisconnected, no_disconnected_nodes_iff}
use merm.Rules.Cycles.{no_cycles}
use merm.Rules.Cycles.Walks.{Walk}
use merm.Rules.Cycles.Invariant.{Shows, followed}
use merm.Rules.Cycles.Reports.{no_cycles_iff}
use merm.Rules.State.{state_no_unreachable, unreachable_issue}
use merm.Rules.State.Unreachable.{IsReachable, state_no_unreachable_iff}

program : Unit {0}
unfolding parse_suppression_selector strip_bang cut_or_all matches_pattern is_selector_prefix
    is_selector_value is_nonspace strip_prefix cut has_char all_chars normalize_config validated
    normalize_rules add_rule normalize_keys assign normalize_meta_key validate_config validate_rule
    resolve_severity normalize_config_rule_id normalize_trimmed built_in_rule_ids is_valid_segment
    is_segment_start trim_space trim_left trim_right is_space to_lower lower lookup contains
program = tt

abbrev not_a : SuppressionSelector
not_a = record { negated = true; prefix = "node"; value = "A:1" }

not_a-IsSelector : IsSelector not_a
unfolding program
not_a-IsSelector = record { prefix = refl; value = refl }

parse-print_selector_example : parse_suppression_selector (print_selector not_a) ≡ some not_a
parse-print_selector_example = parse-print_selector not_a not_a-IsSelector

parses : parse_suppression_selector "!node:A:1" ≡ some not_a
unfolding program
parses = refl

print-parse-IsSelector_example : (print_selector not_a ≡ "!node:A:1") × IsSelector not_a
print-parse-IsSelector_example = print-parse-IsSelector "!node:A:1" not_a parses

-- `core/` and the case of a key are normalized
abbrev raw_config : Config
raw_config = ("core/max-fanout", ("Limit", int (pos 3)) ∷ []) ∷ []

abbrev normal_config : Config
normal_config = ("max-fanout", ("limit", int (pos 3)) ∷ []) ∷ []

normalizes : normalize_config raw_config ("max-fanout" ∷ []) ≡ ok normal_config
unfolding program
normalizes = refl

normalize_config-IsKnown_example :
    IsKnown ("max-fanout" ∷ []) normal_config × (validate_config normal_config normal_config ≡ none)
normalize_config-IsKnown_example =
    normalize_config-IsKnown raw_config ("max-fanout" ∷ []) normal_config normalizes

-- a registered rule whose name is not listed is not configured with `core/`
refuses :
    normalize_config_rule_id "core/no-unreachable-state" ("no-unreachable-state" ∷ [])
    ≡ inl unknown_id
unfolding program
refuses = refl

normalize_config_rule_id_iff_example :
    (normalize_config_rule_id " core/max-fanout" ("max-fanout" ∷ []) ≡ inr "max-fanout") ↔ (
      (str_eq (trim_space " core/max-fanout") "" ≡ false)
      × (contains "max-fanout" ("max-fanout" ∷ []) ≡ true)
      × Names (trim_space " core/max-fanout") "max-fanout")
normalize_config_rule_id_iff_example =
    normalize_config_rule_id_iff " core/max-fanout" ("max-fanout" ∷ []) "max-fanout"

abbrev a : Node
a = record { id = "A"; label = "A"; line = some (pos 2); column = none }

abbrev loop : Edge
loop = record { from = "A"; to = "A"; type = "arrow"; line = some (pos 3); column = none }

abbrev to_b : Edge
to_b = record { from = "A"; to = "B"; type = "arrow"; line = some (pos 4); column = none }

abbrev chart : Diagram
chart = record {
  type = "flowchart";
  direction = "TD";
  nodes = a ∷ a ∷ record a { id = "C" } ∷ [];
  edges = loop ∷ to_b ∷ [];
  subgraphs = [];
  suppressions = [];
  source_node_ids = [];
  disconnected_node_ids = [];
  duplicate_node_ids = [];
  start_states = "A" ∷ [];
}

abbrev order : List String → List String
order xs = xs

abbrev no_text : ℤ → String
no_text n = ""

abbrev two_edges : Config
two_edges = ("max-fanout", ("limit", int (pos 1)) ∷ []) ∷ []

no_disconnected_nodes_iff_example :
    Any (λ j. j ≡ disconnected_issue chart [] "C") (no_disconnected_nodes order chart []) ↔ (
      (id : String) × (¬ IsSingle chart.nodes chart.edges × IsDisconnected chart id)
      × (disconnected_issue chart [] id ≡ disconnected_issue chart [] "C"))
no_disconnected_nodes_iff_example =
    no_disconnected_nodes_iff order chart [] (disconnected_issue chart [] "C") (λ k xs. refl)

state_no_unreachable_iff_example :
    (issues : List Issue) × (state_no_unreachable order chart [] ≡ some issues)
    × ((i : Issue)
        → Any (λ j. j ≡ i) issues
          ↔ Any (λ n. ¬ IsReachable chart n.id × (unreachable_issue [] n ≡ i)) chart.nodes)
state_no_unreachable_iff_example = state_no_unreachable_iff order chart [] (λ k xs. refl)

no_cycles_iff_example :
    (issues : List Issue) × (no_cycles order chart [] ≡ some issues)
    × All (Shows chart []) issues
    × ((issues ≡ []) ↔ ((x : String) → ¬ Walk (followed chart []) x x))
no_cycles_iff_example = no_cycles_iff order chart [] (λ k xs. refl)

-- one rule under its two names: the setting that is iterated over first stays
abbrev both_names : Config
both_names =
    ("max-fanout", ("limit", int (pos 3)) ∷ [])
    ∷ ("core/max-fanout", ("limit", int (pos 4)) ∷ [])
    ∷ []

abbrev both_names_swapped : Config
both_names_swapped =
    ("core/max-fanout", ("limit", int (pos 4)) ∷ [])
    ∷ ("max-fanout", ("limit", int (pos 3)) ∷ [])
    ∷ []

first_stays : normalize_config both_names ("max-fanout" ∷ []) ≡ ok normal_config
unfolding program merge_settings
first_stays = refl

first_stays_swapped :
    normalize_config both_names_swapped ("max-fanout" ∷ [])
    ≡ ok (("max-fanout", ("limit", int (pos 4)) ∷ []) ∷ [])
unfolding program merge_settings
first_stays_swapped = refl
