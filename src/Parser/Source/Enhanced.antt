-- ===== src/Parser/Source/Enhanced.antt =====
-- What EnhanceASTWithSourceAnalysis of ast_enhancer.go writes into a diagram.
use mathlib.Core.List.{append-nil, append_assoc}
use merm.Prelude.{
  ◌+◌, ◌≤◌, ◌≡◌, ◌↔◌, inl, inr, sym, ap, ◌∙◌, String, true, false, not, ◌&&◌, ◌||◌, List, [], ◌∷◌,
  ◌++◌, arith, Bool-cases, str_eq, eq_iff, str_ltb, ltb, contains, keep, Any,
}
use merm.Prelude.Sort.{sort, sort-Any}
use merm.Strings.{split}
use merm.Model.{Diagram}
use merm.Rules.Keys.{
  distinct, count, contains-append, contains-keep, contains-distinct, count-contains,
}
use merm.Parser.Source.Tokens.{extract_explicit_node_definitions}
use merm.Parser.Source.{
  Names, before_comment, extract_edge_node_ids, add_name, add_names, analyze_line, analyze_lines,
  nothing, analyze_source_nodes, names_in, enhance_ast_with_source_analysis,
}

-- the definitions on some lines
abbrev pub defined_on : List String → List String
defined_on [] = []
defined_on (line ∷ lines) =
    extract_explicit_node_definitions (before_comment line) ++ defined_on lines

-- the ends of the edges on some lines
abbrev pub connected_on : List String → List String
connected_on [] = []
connected_on (line ∷ lines) = extract_edge_node_ids (before_comment line) ++ connected_on lines

contains-add_name :
    (k id : String) (ids : List String)
    → contains k (add_name id ids) ≡ (contains k ids || str_eq id k)
unfolding add_name contains
contains-add_name k id ids = elim (Bool-cases (contains id ids)) [
  | inl there ↦ ground (arith, there, eq_iff id k)
  | inr new ↦ ground (arith, new, contains-append k ids (id ∷ []))
]

contains-add_names :
    (k : String) (more ids : List String)
    → contains k (add_names more ids) ≡ (contains k ids || contains k more)
unfolding add_names contains
contains-add_names k [] ids = ground arith
contains-add_names k (id ∷ more) ids =
    ground (arith, contains-add_names k more (add_name id ids), contains-add_name k id ids)

-- no name occurs twice
abbrev pub Once : List String → Type 0
Once ids = (k : String) → count k ids ≤ 1

count-append : (k : String) (xs ys : List String) → count k (xs ++ ys) ≡ count k xs + count k ys
unfolding count
count-append k [] ys = omega arith
count-append k (x ∷ xs) ys = ground (arith, count-append k xs ys)

add_name-Once : (id : String) (ids : List String) → Once ids → Once (add_name id ids)
unfolding add_name count
add_name-Once id ids o k = elim (Bool-cases (contains id ids)) [
  | inl there ↦ ground (arith, there, o k)
  | inr new ↦
      ground (arith, new, o k, count-append k ids (id ∷ []), count-contains k ids, eq_iff id k)
]

add_names-Once : (more ids : List String) → Once ids → Once (add_names more ids)
unfolding add_names
add_names-Once [] ids o = o
add_names-Once (id ∷ more) ids o = add_names-Once more (add_name id ids) (add_name-Once id ids o)

-- What the loop over the lines leaves.
record Analyzed (lines : List String) (n m : Names) : Type 0 where
  counts : m.counts ≡ n.counts ++ defined_on lines
  edges : m.edge_node_ids ≡ n.edge_node_ids ++ connected_on lines
  ids :
      (k : String)
      → contains k m.node_ids ≡ (contains k n.node_ids || contains k (defined_on lines))
  once : Once m.node_ids

analyze_lines-Analyzed :
    (lines : List String) (n : Names) → Once n.node_ids → Analyzed lines n (analyze_lines lines n)
unfolding analyze_lines analyze_line contains
analyze_lines-Analyzed [] n o = record {
  counts = sym (append-nil n.counts);
  edges = sym (append-nil n.edge_node_ids);
  ids = λ k. ground arith;
  once = o;
}
analyze_lines-Analyzed (line ∷ lines) n o =
    let defs = extract_explicit_node_definitions (before_comment line) in
    let ends = extract_edge_node_ids (before_comment line) in
    let r = analyze_lines-Analyzed lines (analyze_line line n) (add_names-Once defs n.node_ids o) in
    record {
      counts = r.counts ∙ append_assoc n.counts defs (defined_on lines);
      edges = r.edges ∙ append_assoc n.edge_node_ids ends (connected_on lines);
      ids = λ k. ground (
        arith,
        r.ids k,
        contains-add_names k defs n.node_ids,
        contains-append k defs (defined_on lines),
      );
      once = r.once;
    }

contains-Any : (k : String) (xs : List String) → (contains k xs ≡ true) ↔ Any (λ x. x ≡ k) xs
unfolding contains
contains-Any k [] = ground arith
contains-Any k (x ∷ xs) = ground (arith, contains-Any k xs, eq_iff x k)

contains-sort : (k : String) (xs : List String) → contains k (sort str_ltb xs) ≡ contains k xs
contains-sort k xs =
    ground
      (arith, contains-Any k xs, contains-Any k (sort str_ltb xs), sort-Any str_ltb (λ x. x ≡ k) xs)

-- What the analysis of a source writes into a diagram.
pub record Enhances (d : Diagram) (lines : List String) (d' : Diagram) : Type 0 where
  pub source :
      (k : String)
      → contains k d'.source_node_ids
        ≡ (contains k (defined_on lines) || contains k (connected_on lines))
  pub once : Once d'.source_node_ids
  pub disconnected :
      (k : String)
      → contains k d'.disconnected_node_ids
        ≡ (contains k d'.source_node_ids && not (contains k (names_in d)))
  pub duplicate :
      (k : String) → contains k d'.duplicate_node_ids ≡ ltb 1 (count k (defined_on lines))

-- EnhanceASTWithSourceAnalysis on a source that is not empty gives a diagram each name once that a line
-- defines or connects, calls those of them disconnected that the diagram has not, and those duplicate
-- that are defined more than once, whatever the order in which Go iterates over the map of the counts.
pub enhance_ast_with_source_analysis_lem :
    (order : List String → List String) (d : Diagram) (source : String)
    → ((k : String) (xs : List String) → contains k (order xs) ≡ contains k xs)
    → str_eq source "" ≡ false
    → Enhances d (split 10 source) (enhance_ast_with_source_analysis order d source)
unfolding enhance_ast_with_source_analysis analyze_source_nodes contains count
enhance_ast_with_source_analysis_lem order d source h full =
    let lines = split 10 source in
    let n = analyze_lines lines nothing in
    let r = analyze_lines-Analyzed lines nothing (λ k. omega arith) in
    let ids = add_names n.edge_node_ids n.node_ids in
    rw full (record {
      source = λ k. ground (
        arith,
        contains-add_names k n.edge_node_ids n.node_ids,
        r.ids k,
        ap (contains k) r.edges,
      );
      once = add_names-Once n.edge_node_ids n.node_ids r.once;
      disconnected = λ k. contains-keep (λ id. not (contains id (names_in d))) k ids;
      duplicate = λ k. ground (
        arith,
        contains-sort k (keep (λ id. ltb 1 (count id n.counts)) (order (distinct n.counts))),
        contains-keep (λ id. ltb 1 (count id n.counts)) k (order (distinct n.counts)),
        h k (distinct n.counts),
        contains-distinct k n.counts,
        count-contains k n.counts,
        ap (count k) r.counts,
      );
    })
