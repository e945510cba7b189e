-- ===== src/Engine/Selectors.antt =====
-- internal/engine/engine.go: the suppression selectors of the configuration. A Go map from lines to
-- node ids is an association list.
pub mod Matching
use merm.Prelude.{
  ℕ, ◌≡◌, refl, ◌↔◌, ◌⊎◌, inl, inr, String, Bool, true, false, not, ◌&&◌, ◌||◌, Option, none, some,
  List, [], ◌∷◌, ◌++◌, arith, if◌then◌else◌, str_eq, eq_iff, ℤ, eqb_ℤ, keep, lookup, contains, Any,
  Option-cases,
}
use merm.Strings.{strip_prefix, cut, has_char}
use merm.Model.{Issue, IssueContext, Node, Diagram}
use merm.Rules.Config.{Value, text, flag, int, whole, fraction, texts, array, other, Config}
use merm.Rules.Selector.{SuppressionSelector, parse_suppression_selector, is_selector_prefix}

abbrev pub LineIndex : Type 0
LineIndex = List (ℤ × List String)

-- `index[line]`
unfoldable pub at_line : ℤ → LineIndex → Option (List String)
at_line line [] = none
at_line line ((k, ids) ∷ index) =
    let rest = at_line line index in elim (eqb_ℤ k line) [ true ↦ some ids | false ↦ rest ]

-- `index[line] = append(index[line], id)`
unfoldable pub append_at : ℤ → String → LineIndex → LineIndex
append_at line id [] = (line, id ∷ []) ∷ []
append_at line id ((k, ids) ∷ index) =
    let rest = append_at line id index in
    elim (eqb_ℤ k line) [ true ↦ (k, ids ++ (id ∷ [])) ∷ index | false ↦ (k, ids) ∷ rest ]

-- the loop of `buildNodeLineIndex`
unfoldable pub index_nodes : List Node → LineIndex → LineIndex
index_nodes [] index = index
index_nodes (node ∷ nodes) index =
    index_nodes nodes (elim node.line [ none ↦ index | some line ↦ append_at line node.id index ])

-- `buildNodeLineIndex`
unfoldable pub build_node_line_index : Diagram → LineIndex
build_node_line_index d = index_nodes d.nodes []

-- `maxFanoutNodePattern`: ^node "([^"]+)" has fanout
unfoldable pub max_fanout_node : String → Option String
max_fanout_node message = elim (strip_prefix "node \"" message) [
  | none ↦ none
  | some quoted ↦ elim (cut b'"' quoted) [
    | none ↦ none
    | some (id, rest) ↦
        if str_eq id ""
        then none
        else elim (strip_prefix " has fanout" rest) [ none ↦ none | some _ ↦ some id ]
  ]
]

-- a prefix, and behind it `(.+)$`
unfoldable pub rest_of_line : String → String → Option String
rest_of_line prefix message = elim (strip_prefix prefix message) [
  | none ↦ none
  | some id ↦ if str_eq id "" || has_char 10 id then none else some id
]

-- `linkedNodeIDs`, behind the line's nodes
unfoldable pub message_node_ids : String → List String
message_node_ids message = elim (max_fanout_node message) [
  | some id ↦ id ∷ []
  | none ↦ elim (rest_of_line "node is disconnected: " message) [
    | some id ↦ id ∷ []
    | none ↦ elim (rest_of_line "duplicate node ID: " message) [ some id ↦ id ∷ [] | none ↦ [] ]
  ]
]

-- `linkedNodeIDs`
unfoldable pub linked_node_ids : Issue → LineIndex → List String
linked_node_ids issue index = elim issue.line [
  | none ↦ message_node_ids issue.message
  | some line ↦ elim (at_line line index) [ some ids ↦ ids | none ↦ message_node_ids issue.message ]
]

-- the strings among the elements
unfoldable pub only_strings : List (Option String) → List String
only_strings [] = []
only_strings (none ∷ rest) = only_strings rest
only_strings (some s ∷ rest) = s ∷ only_strings rest

-- the type switch of `suppressionSelectorsForRule`
unfoldable pub selectors_in : Value → List String
selectors_in (texts selectors) = selectors
selectors_in (array elements) = only_strings elements
selectors_in _ = []

-- `suppressionSelectorsForRule`
unfoldable pub suppression_selectors_for_rule : Config → String → List String
suppression_selectors_for_rule cfg rule_id = elim (lookup rule_id cfg) [
  | none ↦ []
  | some rule_cfg ↦ elim (lookup "suppression-selectors" rule_cfg) [
    | none ↦ []
    | some raw ↦ selectors_in raw
  ]
]

-- `parseSelector`
unfoldable pub parse_selector : String → Option SuppressionSelector
parse_selector raw = elim (parse_suppression_selector raw) [
  | none ↦ none
  | some parsed ↦ if is_selector_prefix parsed.prefix then some parsed else none
]

-- the switch on the prefix in `issueMatchesAnySelector`
unfoldable pub selector_matches : Issue → LineIndex → SuppressionSelector → Bool
selector_matches issue index parsed =
    if str_eq parsed.prefix "rule"
    then str_eq issue.rule_id parsed.value
    else if str_eq parsed.prefix "subgraph"
    then elim issue.context [ none ↦ false | some c ↦ str_eq c.subgraph_id parsed.value ]
    else if str_eq parsed.prefix "node"
    then contains parsed.value (linked_node_ids issue index)
    else false

-- `applySelectorMatchPrecedence`
unfoldable pub apply_selector_match_precedence : Bool → Bool → Bool → Bool × Bool
apply_selector_match_precedence negated matched_include matched_exclude =
    if negated then (matched_include, true) else (true, matched_exclude)

-- one round of the loop of `issueMatchesAnySelector`
unfoldable pub selector_round : Issue → LineIndex → String → Bool × Bool → Bool × Bool
selector_round issue index raw matched = elim (parse_selector raw) [
  | none ↦ matched
  | some parsed ↦
      if selector_matches issue index parsed
      then apply_selector_match_precedence parsed.negated matched.0 matched.1
      else matched
]

-- its loop
unfoldable pub selector_loop : Issue → LineIndex → List String → Bool × Bool → Bool × Bool
selector_loop issue index [] matched = matched
selector_loop issue index (raw ∷ rest) matched =
    selector_loop issue index rest (selector_round issue index raw matched)

-- `issueMatchesAnySelector`
unfoldable pub issue_matches_any_selector : Issue → List String → LineIndex → Bool
issue_matches_any_selector issue selectors index =
    let (matched_include, matched_exclude) = selector_loop issue index selectors (false, false) in
    matched_include && not matched_exclude

-- whether `applyConfigSelectors` keeps a finding
unfoldable pub is_left : Config → LineIndex → Issue → Bool
is_left cfg index issue = elim (suppression_selectors_for_rule cfg issue.rule_id) [
  | [] ↦ true
  | s ∷ rest ↦ not (issue_matches_any_selector issue (s ∷ rest) index)
]

-- `applyConfigSelectors`
unfoldable pub apply_config_selectors : List Issue → Diagram → Config → List Issue
apply_config_selectors issues d cfg = keep (is_left cfg (build_node_line_index d)) issues
