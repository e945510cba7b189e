-- ===== src/Engine/Suppress.antt =====
-- internal/engine/engine.go: suppression comments.
use merm.Prelude.{
  ◌≡◌, refl, ◌↔◌, ◌⊎◌, inl, inr, String, Bool, true, false, not, ◌&&◌, ◌||◌, Option, none, some,
  List, [], ◌∷◌, arith, if◌then◌else◌, str_eq, eq_iff, ℤ, eqb_ℤ, eqb_ℤ_iff, keep, keep-true, Any,
  sym, Option-cases,
}
use merm.Model.{Issue, IssueContext, SuppressionDirective}

-- `suppressionMatchesRule`
unfoldable pub suppression_matches_rule : String → String → Bool
suppression_matches_rule issue_rule_id suppressed_rule_id =
    str_eq suppressed_rule_id "all" || str_eq suppressed_rule_id issue_rule_id

-- `suppressionAppliesToContext`
unfoldable pub suppression_applies_to_context : Issue → SuppressionDirective → Bool
suppression_applies_to_context issue s =
    if str_eq s.subgraph_id ""
    then true
    else elim issue.context [ none ↦ false | some c ↦ str_eq c.subgraph_id s.subgraph_id ]

-- `issue.Line != nil && *issue.Line == suppression.TargetLine`
abbrev pub is_on_line : Option ℤ → ℤ → Bool
is_on_line none target = false
is_on_line (some line) target = eqb_ℤ line target

-- the body of the loop of `isSuppressed`: whether it returns
unfoldable pub suppresses : Issue → SuppressionDirective → Bool
suppresses issue s =
    if not (suppression_matches_rule issue.rule_id s.rule_id)
    then false
    else if str_eq s.scope "file"
    then suppression_applies_to_context issue s
    else if str_eq s.scope "next-line"
    then is_on_line issue.line s.target_line && suppression_applies_to_context issue s
    else false

-- `isSuppressed`
unfoldable pub is_suppressed : Issue → List SuppressionDirective → Bool
is_suppressed issue [] = false
is_suppressed issue (s ∷ rest) =
    let later = is_suppressed issue rest in
    elim (suppresses issue s) [ true ↦ true | false ↦ later ]

-- `applySuppressions`
unfoldable pub apply_suppressions : List Issue → List SuppressionDirective → List Issue
apply_suppressions issues [] = issues
apply_suppressions issues (s ∷ rest) = keep (λ issue. not (is_suppressed issue (s ∷ rest))) issues

-- A directive is about the finding's rule, its place, and its subgraph.
pub record Covers (issue : Issue) (s : SuppressionDirective) : Type 0 where
  pub rule : (s.rule_id ≡ "all") ⊎ (s.rule_id ≡ issue.rule_id)
  pub place : (s.scope ≡ "file") ⊎ ((s.scope ≡ "next-line") × (issue.line ≡ some s.target_line))
  pub subgraph :
      (s.subgraph_id ≡ "")
      ⊎ ((c : IssueContext) × (issue.context ≡ some c) × (c.subgraph_id ≡ s.subgraph_id))

suppression_matches_rule_iff :
    (r t : String) → (suppression_matches_rule r t ≡ true) ↔ ((t ≡ "all") ⊎ (t ≡ r))
unfolding suppression_matches_rule
suppression_matches_rule_iff r t = ground (arith, eq_iff t "all", eq_iff t r)

is_on_line_iff : (line : Option ℤ) (t : ℤ) → (is_on_line line t ≡ true) ↔ (line ≡ some t)
is_on_line_iff none t = ground arith
is_on_line_iff (some line) t = ground (arith, eqb_ℤ_iff line t)

suppression_applies_to_context_iff :
    (i : Issue) (s : SuppressionDirective)
    → (suppression_applies_to_context i s ≡ true) ↔ (
        (s.subgraph_id ≡ "")
        ⊎ ((c : IssueContext) × (i.context ≡ some c) × (c.subgraph_id ≡ s.subgraph_id)))
unfolding suppression_applies_to_context
suppression_applies_to_context_iff i s = elim (Option-cases i.context) [
  | inl absent ↦ ground (arith, eq_iff s.subgraph_id "")
  | inr (c, present) ↦ ground (arith, eq_iff s.subgraph_id "", eq_iff c.subgraph_id s.subgraph_id)
]

suppresses-Covers : (i : Issue) (s : SuppressionDirective) → suppresses i s ≡ true → Covers i s
unfolding suppresses
suppresses-Covers i s h =
    let rule = suppression_matches_rule_iff i.rule_id s.rule_id in
    let context = suppression_applies_to_context_iff i s in
    record {
      rule = ground (arith, rule);
      place = ground (
        arith,
        eq_iff s.scope "file",
        eq_iff s.scope "next-line",
        is_on_line_iff i.line s.target_line,
      );
      subgraph = context.0 (ground (arith, eq_iff s.scope "file", eq_iff s.scope "next-line"));
    }

Covers-suppresses : (i : Issue) (s : SuppressionDirective) → Covers i s → suppresses i s ≡ true
unfolding suppresses
Covers-suppresses i s h =
    let rule = (suppression_matches_rule_iff i.rule_id s.rule_id).1 h.rule in
    let context = (suppression_applies_to_context_iff i s).1 h.subgraph in
    ground (
      arith,
      rule,
      context,
      eq_iff s.scope "file",
      eq_iff s.scope "next-line",
      is_on_line_iff i.line s.target_line,
    )

-- A finding is suppressed exactly if some directive covers it.
pub is_suppressed_iff :
    (i : Issue) (ds : List SuppressionDirective) → (is_suppressed i ds ≡ true) ↔ Any (Covers i) ds
unfolding is_suppressed
is_suppressed_iff i [] = ground arith
is_suppressed_iff i (s ∷ ds) =
    ground (arith, is_suppressed_iff i ds, suppresses-Covers i s, Covers-suppresses i s)

-- What is left are the findings that no directive suppresses, in their order; with no directives
-- that is all of them.
pub apply_suppressions-keep :
    (issues : List Issue) (ds : List SuppressionDirective)
    → apply_suppressions issues ds ≡ keep (λ i. not (is_suppressed i ds)) issues
unfolding apply_suppressions is_suppressed
apply_suppressions-keep issues [] = sym (keep-true issues)
apply_suppressions-keep issues (s ∷ ds) = refl
