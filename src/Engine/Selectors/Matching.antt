-- ===== src/Engine/Selectors/Matching.antt =====
-- internal/engine/engine.go: which findings the configured selectors suppress.
use merm.Prelude.{
  ◌≡◌, refl, sym, ap, ◌∙◌, ◌↔◌, ◌⊎◌, inl, inr, String, Bool, true, false, not, ◌&&◌, Option, none,
  some, List, [], ◌∷◌, ◌++◌, arith, if◌then◌else◌, str_eq, eq_iff, ℤ, eqb_ℤ, eqb_ℤ_iff, contains,
  Any, Option-cases, Bool-cases,
}
use merm.Model.{Issue, IssueContext, Node, Diagram}
use merm.Rules.Selector.{
  SuppressionSelector, parse_suppression_selector, print_selector, print-parse-IsSelector,
  parse-print_selector, is_selector_prefix, is_selector_value,
}
use merm.Engine.Selectors.{
  LineIndex, at_line, append_at, index_nodes, build_node_line_index, linked_node_ids,
  parse_selector, selector_matches, selector_round, selector_loop, issue_matches_any_selector,
  apply_selector_match_precedence,
}

-- the ids of the nodes on a line, in order
unfoldable pub ids_on : ℤ → List Node → List String
ids_on line [] = []
ids_on line (node ∷ nodes) =
    let rest = ids_on line nodes in
    elim node.line [
      | none ↦ rest
      | some l ↦ elim (eqb_ℤ l line) [ true ↦ node.id ∷ rest | false ↦ rest ]
    ]

-- an entry of the index with more ids behind it
unfoldable pub extend : Option (List String) → List String → Option (List String)
extend none [] = none
extend none (id ∷ ids) = some (id ∷ ids)
extend (some old) ids = some (old ++ ids)

append-nil : (xs : List String) → xs ++ [] ≡ xs
append-nil [] = refl
append-nil (x ∷ xs) = ap (◌∷◌ x) (append-nil xs)

append_assoc : (xs ys zs : List String) → (xs ++ ys) ++ zs ≡ xs ++ (ys ++ zs)
append_assoc [] ys zs = refl
append_assoc (x ∷ xs) ys zs = ap (◌∷◌ x) (append_assoc xs ys zs)

extend-nil : (o : Option (List String)) → extend o [] ≡ o
unfolding extend
extend-nil none = refl
extend-nil (some ids) = ap some (append-nil ids)

extend-extend :
    (o : Option (List String)) (id : String) (ids : List String)
    → extend (extend o (id ∷ [])) ids ≡ extend o (id ∷ ids)
unfolding extend
extend-extend none id ids = refl
extend-extend (some old) id ids = ap some (append_assoc old (id ∷ []) ids)

at_line-append_at_self :
    (l : ℤ) (id : String) (index : LineIndex)
    → at_line l (append_at l id index) ≡ extend (at_line l index) (id ∷ [])
unfolding at_line append_at extend
at_line-append_at_self l id [] = ground (arith, eqb_ℤ_iff l l)
at_line-append_at_self l id ((k, ids) ∷ index) =
    ground (arith, eqb_ℤ_iff k l, at_line-append_at_self l id index)

at_line-append_at_ne :
    (l k : ℤ) (id : String) (index : LineIndex)
    → eqb_ℤ k l ≡ false
    → at_line l (append_at k id index) ≡ at_line l index
unfolding at_line append_at
at_line-append_at_ne l k id [] h = ground arith
at_line-append_at_ne l k id ((j, ids) ∷ index) h =
    ground (arith, eqb_ℤ_iff j k, eqb_ℤ_iff j l, eqb_ℤ_iff k l, at_line-append_at_ne l k id index h)

at_line-index_nodes :
    (l : ℤ) (nodes : List Node) (index : LineIndex)
    → at_line l (index_nodes nodes index) ≡ extend (at_line l index) (ids_on l nodes)
unfolding index_nodes ids_on
at_line-index_nodes l [] index = sym (extend-nil (at_line l index))
at_line-index_nodes l (node ∷ nodes) index = elim (Option-cases node.line) [
  | inl none' ↦ rw (none', ids_on) (at_line-index_nodes l nodes index)
  | inr (k, found) ↦ elim (Bool-cases (eqb_ℤ k l)) [
    | inl same ↦ ground (
      arith,
      eqb_ℤ_iff k l,
      at_line-append_at_self l node.id index,
      at_line-index_nodes l nodes (append_at k node.id index),
      extend-extend (at_line l index) node.id (ids_on l nodes),
    )
    | inr other ↦ ground (
      arith,
      at_line-append_at_ne l k node.id index other,
      at_line-index_nodes l nodes (append_at k node.id index),
    )
  ]
]

-- A line is in the index exactly if a node stands on it, and then with the ids of all the nodes that
-- do, in the diagram's order.
pub at_line-build_node_line_index :
    (l : ℤ) (d : Diagram) → at_line l (build_node_line_index d) ≡ extend none (ids_on l d.nodes)
unfolding build_node_line_index at_line
at_line-build_node_line_index l d = at_line-index_nodes l d.nodes []

-- A selector, negated or not, that is about the finding.
pub record Selects (issue : Issue) (index : LineIndex) (negated : Bool) (raw : String)
    : Type 0 where
  pub parsed : SuppressionSelector
  pub parses : parse_suppression_selector raw ≡ some parsed
  pub sign : parsed.negated ≡ negated
  pub about :
      ((parsed.prefix ≡ "rule") × (issue.rule_id ≡ parsed.value))
      ⊎ ((parsed.prefix ≡ "subgraph")
          × ((c : IssueContext) × (issue.context ≡ some c) × (c.subgraph_id ≡ parsed.value)))
      ⊎ ((parsed.prefix ≡ "node") × (contains parsed.value (linked_node_ids issue index) ≡ true))

parse_selector-valid :
    (raw : String) (s : SuppressionSelector)
    → parse_suppression_selector raw ≡ some s
    → parse_selector raw ≡ some s
unfolding parse_selector
parse_selector-valid raw s h = ground (arith, (print-parse-IsSelector raw s h).1.prefix)

parse_selector_same : (raw : String) → parse_selector raw ≡ parse_suppression_selector raw
unfolding parse_selector
parse_selector_same raw = elim (Option-cases (parse_suppression_selector raw)) [
  | inl bad ↦ ground arith
  | inr (s, good) ↦ parse_selector-valid raw s good ∙ sym good
]

-- whether a selector, negated or not, is about the finding
hits : Issue → LineIndex → Bool → String → Bool
hits issue index negated raw = elim (parse_suppression_selector raw) [
  | none ↦ false
  | some s ↦ (if negated then s.negated else not s.negated) && selector_matches issue index s
]

selector_matches_iff :
    (issue : Issue) (index : LineIndex) (s : SuppressionSelector)
    → (selector_matches issue index s ≡ true) ↔ (
        ((s.prefix ≡ "rule") × (issue.rule_id ≡ s.value))
        ⊎ ((s.prefix ≡ "subgraph")
            × ((c : IssueContext) × (issue.context ≡ some c) × (c.subgraph_id ≡ s.value)))
        ⊎ ((s.prefix ≡ "node") × (contains s.value (linked_node_ids issue index) ≡ true)))
unfolding selector_matches
selector_matches_iff issue index s = elim (Option-cases issue.context) [
  | inl absent ↦ ground (
    arith,
    eq_iff s.prefix "rule",
    eq_iff s.prefix "subgraph",
    eq_iff s.prefix "node",
    eq_iff "subgraph" "node",
    eq_iff "subgraph" "rule",
    eq_iff "node" "rule",
    eq_iff issue.rule_id s.value,
  )
  | inr (c, present) ↦ ground (
    arith,
    eq_iff s.prefix "rule",
    eq_iff s.prefix "subgraph",
    eq_iff s.prefix "node",
    eq_iff "subgraph" "node",
    eq_iff "subgraph" "rule",
    eq_iff "node" "rule",
    eq_iff issue.rule_id s.value,
    eq_iff c.subgraph_id s.value,
  )
]

hits_iff :
    (issue : Issue) (index : LineIndex) (negated : Bool) (raw : String)
    → (hits issue index negated raw ≡ true) ↔ Selects issue index negated raw
unfolding hits
hits_iff issue index negated raw = elim (Option-cases (parse_suppression_selector raw)) [
  | inl bad ↦ (λ h. absurd (ground arith), λ h. absurd (let p = h.parses in ground arith))
  | inr (s, good) ↦
      let matches = selector_matches_iff issue index s in
      (
        λ h. record {
          parsed = s;
          parses = good;
          sign = ground arith;
          about = matches.0 (ground arith);
        },
        λ h.
            let same : h.parsed ≡ s = (let p = h.parses in ground arith) in
            let matched = (selector_matches_iff issue index h.parsed).1 h.about in
            let sign = h.sign in ground (arith, same, matched, sign),
      )
]

selector_loop-Any :
    (issue : Issue) (index : LineIndex) (raws : List String) (inc exc : Bool)
    → ((((selector_loop issue index raws (inc, exc)).0 ≡ true)
          ↔ ((inc ≡ true) ⊎ Any (λ raw. hits issue index false raw ≡ true) raws))
        × (((selector_loop issue index raws (inc, exc)).1 ≡ true)
            ↔ ((exc ≡ true) ⊎ Any (λ raw. hits issue index true raw ≡ true) raws)))
unfolding selector_loop selector_round hits apply_selector_match_precedence
selector_loop-Any issue index [] inc exc = ground arith
selector_loop-Any issue index (raw ∷ raws) inc exc =
    elim (Option-cases (parse_suppression_selector raw)) [
      | inl bad ↦
          ground (arith, parse_selector_same raw, selector_loop-Any issue index raws inc exc)
      | inr (s, good) ↦ ground (
        arith,
        parse_selector_same raw,
        selector_loop-Any issue index raws inc exc,
        selector_loop-Any issue index raws true exc,
        selector_loop-Any issue index raws inc true,
      )
    ]

Any-hits :
    (issue : Issue) (index : LineIndex) (negated : Bool) (raws : List String)
    → Any (λ raw. hits issue index negated raw ≡ true) raws ↔ Any (Selects issue index negated) raws
Any-hits issue index negated [] = ground arith
Any-hits issue index negated (raw ∷ raws) =
    ground (arith, hits_iff issue index negated raw, Any-hits issue index negated raws)

-- The selectors suppress a finding exactly if one without `!` is about it and none with `!` is,
-- whatever their order.
pub issue_matches_any_selector_iff :
    (issue : Issue) (raws : List String) (index : LineIndex)
    → (issue_matches_any_selector issue raws index ≡ true)
      ↔ (Any (Selects issue index false) raws × ¬ Any (Selects issue index true) raws)
unfolding issue_matches_any_selector
issue_matches_any_selector_iff issue raws index = ground (
  arith,
  selector_loop-Any issue index raws false false,
  Any-hits issue index false raws,
  Any-hits issue index true raws,
)

-- The selector `rule:v` alone suppresses exactly the findings of the rule that is called `v`: the
-- values `all` and `*` stand for no other rule.
pub rule_selector_only :
    (issue : Issue) (v : String) (index : LineIndex)
    → is_selector_value v ≡ true
    → (issue_matches_any_selector issue
          (print_selector (record { negated = false; prefix = "rule"; value = v }) ∷ [])
          index
        ≡ str_eq issue.rule_id v)
unfolding issue_matches_any_selector selector_loop selector_round selector_matches
    apply_selector_match_precedence is_selector_prefix
rule_selector_only issue v index h =
    let s : SuppressionSelector = record { negated = false; prefix = "rule"; value = v } in
    let printed = parse-print_selector s (record { prefix = refl; value = h }) in
    ground (arith, parse_selector-valid (print_selector s) s printed)
