-- ===== src/Parser/Source/Tests.antt =====
-- The analysis of ast_enhancer.go at a concrete source.
use merm.Prelude.{◌≡◌, refl, String, List, [], ◌∷◌, contains, keep}
use merm.Prelude.Sort.{sort, insert}
use merm.Strings.{split, to_lower, lower}
use merm.Model.{Diagram}
use merm.Rules.Keys.{distinct, count}
use merm.Parser.Source.Tokens.{
  is_keyword, is_identifier_start, is_ascii_digit, is_identifier_core, valid_after,
  is_valid_node_id_token, scan_node_id_end, size, spans_from, extract_node_id_spans, skip_blanks,
  name_before, definitions_after, extract_explicit_node_definitions, is_edge_operator_char,
  connectors, has_right, is_edge_operator_token, operator_at, operators_from,
  extract_edge_operators,
}
use merm.Parser.Source.{
  nearest_node_before, nearest_node_after, ends_of_edges, extract_edge_node_ids, before_comment,
  add_name, add_names, analyze_line, analyze_lines, analyze_source_nodes,
  enhance_ast_with_source_analysis,
}
use merm.Parser.Source.Enhanced.{Enhances, enhance_ast_with_source_analysis_lem}

abbrev chart : Diagram
chart = record {
  type = "flowchart";
  direction = "TD";
  nodes = [];
  edges = [];
  subgraphs = [];
  suppressions = [];
  source_node_ids = [];
  disconnected_node_ids = [];
  duplicate_node_ids = [];
  start_states = [];
}

abbrev order : List String → List String
order xs = xs

abbrev source : String
source = "graph TD\nA[x y] --> b-1\nA(z)  %% C[w]\n"

analyzes : analyze_source_nodes order source ≡ ("A" ∷ "b-1" ∷ [], "A" ∷ [])
unfolding analyze_source_nodes analyze_lines analyze_line add_names add_name before_comment
    extract_edge_node_ids ends_of_edges nearest_node_before nearest_node_after
    extract_edge_operators operators_from operator_at is_edge_operator_token has_right connectors
    is_edge_operator_char extract_explicit_node_definitions definitions_after name_before
    skip_blanks extract_node_id_spans spans_from size scan_node_id_end is_valid_node_id_token
    valid_after is_identifier_core is_ascii_digit is_identifier_start is_keyword to_lower lower
    split distinct count contains keep sort insert
analyzes = refl

enhance_ast_with_source_analysis_lem_example :
    Enhances chart (split 10 source) (enhance_ast_with_source_analysis order chart source)
enhance_ast_with_source_analysis_lem_example =
    enhance_ast_with_source_analysis_lem order chart source (λ k xs. refl) refl
