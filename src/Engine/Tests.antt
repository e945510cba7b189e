-- ===== src/Engine/Tests.antt =====
-- The theorems on internal/engine/engine.go at concrete inputs.
use mathlib.Core.List.{Permᴰ}
use mathlib.Core.List.Permᴰ
use merm.Prelude.{
  ◌∙◌, String, arith, eq_iff, sym, ◌≡◌, refl, ◌↔◌, inl, inr, true, none, some, [], ◌∷◌, false,
  str_eq, pos, All, Any,
}
use merm.Strings.{all_chars, trim_space, trim_left, trim_right, is_space, to_lower, lower}
use merm.Model.{Issue, Diagram, SuppressionDirective}
use merm.Engine.Suppress.{is_suppressed, Covers, is_suppressed_iff}
use merm.Engine.Selectors.{issue_matches_any_selector, build_node_line_index}
use merm.Engine.Selectors.Matching.{Selects, issue_matches_any_selector_iff, rule_selector_only}
use merm.Rules.Selector.{print_selector, is_selector_value, is_nonspace}
use merm.Engine.Run.{Rule, run_with_instrumentation, new_with_rules}
use merm.Engine.Run.Registered.{IsEngine, new_with_rules_iff}
use merm.Rules.Config.{RuleConfig, flag, text}
use merm.Rules.Settings.{normalize_meta_key}
use merm.Rules.Normalize.Rounds.{IsUnambiguous, GiveSame}
use merm.Rules.Normalize.Same.{NamesUnknown}
use merm.Engine.Run.Stable.{IsAlike, run_with_instrumentation_stable}
use merm.Rules.Flowchart.{max_fanout, no_disconnected_nodes, no_duplicate_node_ids}
use merm.Rules.Sequence.{sequence_no_undefined_actors, sequence_no_duplicate_actors}
use merm.Rules.Class.{class_no_duplicate_classes}
use merm.Rules.Loops.{er_no_self_referential, state_no_circular_transitions, state_max_transitions}
use merm.Rules.State.{unreachable_issues}
use merm.Engine.Fresh.{findings-IsFresh}
use merm.Engine.Order.Total.{IsFresh}
use merm.Engine.Order.Dedupe.{
  reported, IsStrict, Has, reported-perm, reported-IsStrict, reported-Has,
}

abbrev cycle : Issue
cycle = record {
  rule_id = "no-cycles";
  severity = "error";
  message = "directed cycle detected: A -> A";
  line = some (pos 2);
  column = none;
  fingerprint = "";
  context = none;
}

abbrev fanout : Issue
fanout = record cycle { rule_id = "max-fanout"; severity = "warning"; message = "fanout" }

abbrev next_line : SuppressionDirective
next_line = record {
  rule_id = "all";
  scope = "next-line";
  line = pos 1;
  target_line = pos 2;
  subgraph_id = "";
}

both-IsFresh : All IsFresh (fanout ∷ cycle ∷ [])
both-IsFresh = (
  record { severity = inr (inl refl); fingerprint = refl },
  (record { severity = inl refl; fingerprint = refl }, tt),
)

reported-perm_example : reported (fanout ∷ cycle ∷ []) ≡ reported (cycle ∷ fanout ∷ [])
reported-perm_example = reported-perm (Permᴰ.swap refl refl) both-IsFresh

reported-IsStrict_example : IsStrict (reported (fanout ∷ cycle ∷ []))
reported-IsStrict_example = reported-IsStrict (fanout ∷ cycle ∷ []) both-IsFresh

reported-Has_example : Has cycle (reported (fanout ∷ cycle ∷ [])) ↔ Has cycle (fanout ∷ cycle ∷ [])
reported-Has_example = reported-Has cycle (fanout ∷ cycle ∷ []) both-IsFresh

is_suppressed_iff_example :
    (is_suppressed cycle (next_line ∷ []) ≡ true) ↔ Any (Covers cycle) (next_line ∷ [])
is_suppressed_iff_example = is_suppressed_iff cycle (next_line ∷ [])

abbrev chart : Diagram
chart = record {
  type = "flowchart";
  direction = "TD";
  nodes = record { id = "A"; label = "A"; line = some (pos 2); column = none } ∷ [];
  edges = record { from = "A"; to = "A"; type = "arrow"; line = some (pos 2); column = none } ∷ [];
  subgraphs = [];
  suppressions = [];
  source_node_ids = [];
  disconnected_node_ids = [];
  duplicate_node_ids = [];
  start_states = [];
}

-- a rule that finds two things, in either order
abbrev cycles : Rule
cycles = record { id = "no-cycles"; families = none; run = λ d cfg. fanout ∷ cycle ∷ [] }

abbrev cycles_swapped : Rule
cycles_swapped = record { id = "no-cycles"; families = none; run = λ d cfg. cycle ∷ fanout ∷ [] }

alike : IsAlike chart (cycles ∷ []) (cycles_swapped ∷ [])
alike = IsAlike.cons refl refl (λ cfg. Permᴰ.swap refl refl) IsAlike.nil

-- one rule under both its names, in either order
abbrev by_core : String × RuleConfig
by_core = ("core/no-cycles", ("severity", text "info") ∷ [])

abbrev by_name : String × RuleConfig
by_name = ("no-cycles", ("enabled", flag true) ∷ [])

differ : normalize_meta_key "severity" ≡ normalize_meta_key "enabled" → ⊥
unfolding normalize_meta_key trim_space trim_left trim_right is_space to_lower lower
differ h = absurd (ground (arith, (eq_iff "severity" "enabled").1 h))

unambiguous : IsUnambiguous ("no-cycles" ∷ []) (by_core ∷ by_name ∷ [])
unambiguous r k v w (inl (a, inl (b, c))) (inl (d, inl (e, f))) = sym c ∙ f
unambiguous r k v w (inl (a, inl (b, c))) (inr (inl (d, inl (e, f)))) = absurd (differ (b ∙ sym e))
unambiguous r k v w (inr (inl (a, inl (b, c)))) (inl (d, inl (e, f))) = absurd (differ (e ∙ sym b))
unambiguous r k v w (inr (inl (a, inl (b, c)))) (inr (inl (d, inl (e, f)))) = sym c ∙ f
unambiguous r k v w (inl (a, inl (b, c))) (inl (d, inr x)) = absurd x
unambiguous r k v w (inl (a, inl (b, c))) (inr (inl (d, inr x))) = absurd x
unambiguous r k v w (inl (a, inl (b, c))) (inr (inr x)) = absurd x
unambiguous r k v w (inl (a, inr x)) _ = absurd x
unambiguous r k v w (inr (inl (a, inl (b, c)))) (inl (d, inr x)) = absurd x
unambiguous r k v w (inr (inl (a, inl (b, c)))) (inr (inl (d, inr x))) = absurd x
unambiguous r k v w (inr (inl (a, inl (b, c)))) (inr (inr x)) = absurd x
unambiguous r k v w (inr (inl (a, inr x))) _ = absurd x
unambiguous r k v w (inr (inr x)) _ = absurd x

gives_same : GiveSame ("no-cycles" ∷ []) (by_core ∷ by_name ∷ []) (by_name ∷ by_core ∷ [])
gives_same r k v = (λ g. ground (arith, g), λ g. ground (arith, g))

unknown_same :
    NamesUnknown ("no-cycles" ∷ []) (by_core ∷ by_name ∷ [])
    ↔ NamesUnknown ("no-cycles" ∷ []) (by_name ∷ by_core ∷ [])
unknown_same = (
  λ g. elim g [ inl a ↦ inr (inl a) | inr (inl a) ↦ inl a | inr (inr x) ↦ absurd x ],
  λ g. elim g [ inl a ↦ inr (inl a) | inr (inl a) ↦ inl a | inr (inr x) ↦ absurd x ],
)

run_with_instrumentation_stable_example :
    (run_with_instrumentation
      (λ s. s)
      (λ i. "0")
      (cycles ∷ [])
      (some chart)
      (by_core ∷ by_name ∷ [])).0
    ≡ (run_with_instrumentation
        (λ s. s)
        (λ i. "0")
        (cycles_swapped ∷ [])
        (some chart)
        (by_name ∷ by_core ∷ [])).0
run_with_instrumentation_stable_example =
    run_with_instrumentation_stable (λ s. s) (λ i. "0") chart (by_core ∷ by_name ∷ [])
      (by_name ∷ by_core ∷ []) alike ((λ m n same. Permᴰ.refl (fanout ∷ cycle ∷ [])), tt)
      (λ n. (both-IsFresh, tt)) unambiguous gives_same unknown_same

new_with_rules_iff_example :
    (new_with_rules (cycles ∷ []) ≡ some (cycles ∷ []))
    ↔ ((cycles ∷ [] ≡ cycles ∷ []) × IsEngine (cycles ∷ []))
new_with_rules_iff_example = new_with_rules_iff (cycles ∷ []) (cycles ∷ [])

issue_matches_any_selector_iff_example :
    (issue_matches_any_selector cycle ("rule:no-cycles" ∷ []) (build_node_line_index chart) ≡ true)
    ↔ (Any (Selects cycle (build_node_line_index chart) false) ("rule:no-cycles" ∷ [])
        × ¬ Any (Selects cycle (build_node_line_index chart) true) ("rule:no-cycles" ∷ []))
issue_matches_any_selector_iff_example =
    issue_matches_any_selector_iff cycle ("rule:no-cycles" ∷ []) (build_node_line_index chart)

all_is_value : is_selector_value "all" ≡ true
unfolding is_selector_value is_nonspace all_chars
all_is_value = refl

rule_selector_only_example :
    issue_matches_any_selector cycle
      (print_selector (record { negated = false; prefix = "rule"; value = "all" }) ∷ [])
      []
    ≡ str_eq "no-cycles" "all"
rule_selector_only_example = rule_selector_only cycle "all" [] all_is_value

findings-IsFresh_example :
    All IsFresh (max_fanout (λ s. s) (λ n. "") (λ xs. xs) chart [])
    × All IsFresh (no_disconnected_nodes (λ xs. xs) chart [])
    × All IsFresh (no_duplicate_node_ids (λ xs. xs) chart [])
    × All IsFresh (sequence_no_undefined_actors (λ xs. xs) chart [])
    × All IsFresh (sequence_no_duplicate_actors (λ xs. xs) chart [])
    × All IsFresh (class_no_duplicate_classes (λ xs. xs) chart [])
    × All IsFresh (er_no_self_referential chart [])
    × All IsFresh (state_no_circular_transitions chart [])
    × All IsFresh (state_max_transitions (λ s. s) (λ n. "") (λ xs. xs) chart [])
    × All IsFresh (unreachable_issues chart.nodes [] [])
findings-IsFresh_example = findings-IsFresh (λ xs. xs) (λ s. s) (λ n. "") [] chart []
