-- ===== src/Parser/Source.antt =====
-- internal/parser/ast_enhancer.go: the names of nodes in the source of a diagram. The code tests bytes for
-- ASCII characters only, so that a text is scanned by its characters here, and a place is a number of
-- characters. Where the code moves its index behind a token, `skip` characters are passed. The order in
-- which Go iterates over the map of the counts is a parameter, `order`.
pub mod Tokens
pub mod Enhanced
mod Tests
use Prim.Native.Char.{code}
use Prim.Native.String
use merm.Prelude.{
  ℕ, zero, suc, ◌+◌, ◌-◌, String, Bool, true, false, not, ◌&&◌, ◌||◌, Option, none, some, List, [],
  ◌∷◌, ◌++◌, map, if◌then◌else◌, ltb, leb, str_eq, str_ltb, contains, keep, length, ◌==◌,
}
use merm.Prelude.Sort.{sort}
use merm.Strings.{split}
use merm.Model.{Diagram}
use merm.Rules.Keys.{distinct, count}
use merm.Parser.Source.Tokens.{
  Span, extract_node_id_spans, extract_explicit_node_definitions, extract_edge_operators,
}

-- `nearestNodeBefore`, over the spans from the first one on
unfoldable pub nearest_node_before : List Span → ℕ → Option Span
nearest_node_before [] pos = none
nearest_node_before (s ∷ spans) pos = elim (nearest_node_before spans pos) [
  | some t ↦ some t
  | none ↦ if leb s.end pos then some s else none
]

-- `nearestNodeAfter`
unfoldable pub nearest_node_after : List Span → ℕ → Option Span
nearest_node_after [] pos = none
nearest_node_after (s ∷ spans) pos =
    let rest = nearest_node_after spans pos in if leb pos s.start then some s else rest

-- the loop of `extractEdgeNodeIDs` over the operators
unfoldable pub ends_of_edges : List Span → List Span → List String
ends_of_edges spans [] = []
ends_of_edges spans (op ∷ ops) =
    let rest = ends_of_edges spans ops in
    elim (nearest_node_before spans op.start) [
      | none ↦ rest
      | some left ↦ elim (nearest_node_after spans op.end) [
        | none ↦ rest
        | some right ↦ left.token ∷ right.token ∷ rest
      ]
    ]

-- `extractEdgeNodeIDs`
unfoldable pub extract_edge_node_ids : String → List String
extract_edge_node_ids source =
    let spans = extract_node_id_spans source in
    if ltb (length spans) 2 then [] else ends_of_edges spans (extract_edge_operators source)

-- a line up to the first `%%`
unfoldable pub before_comment : String → String
before_comment String.[] = ""
before_comment (String.◌∷◌ c String.[]) = String.◌∷◌ c ""
before_comment (String.◌∷◌ c (String.◌∷◌ d s)) =
    let rest = before_comment (String.◌∷◌ d s) in
    if code c == 37 && code d == 37 then "" else String.◌∷◌ c rest

-- the variables of `analyzeSourceNodes`: `counts` is the list of the texts that it counts, and `seen` holds
-- the same names as `node_ids`
pub record Names : Type 0 where
  pub node_ids : List String
  pub counts : List String
  pub edge_node_ids : List String

-- a name that has not been seen
unfoldable pub add_name : String → List String → List String
add_name id ids = if contains id ids then ids else ids ++ (id ∷ [])

-- a loop that adds names
unfoldable pub add_names : List String → List String → List String
add_names [] ids = ids
add_names (id ∷ more) ids = add_names more (add_name id ids)

-- the round on a line
unfoldable pub analyze_line : String → Names → Names
analyze_line raw n =
    let line = before_comment raw in
    let defs = extract_explicit_node_definitions line in
    record {
      node_ids = add_names defs n.node_ids;
      counts = n.counts ++ defs;
      edge_node_ids = n.edge_node_ids ++ extract_edge_node_ids line;
    }

-- the loop over the lines
unfoldable pub analyze_lines : List String → Names → Names
analyze_lines [] n = n
analyze_lines (line ∷ lines) n = analyze_lines lines (analyze_line line n)

abbrev pub nothing : Names
nothing = record { node_ids = []; counts = []; edge_node_ids = [] }

-- `analyzeSourceNodes`: the names, and those that are defined more than once
unfoldable pub analyze_source_nodes :
    (List String → List String) → String → List String × List String
analyze_source_nodes order source =
    let n = analyze_lines (split 10 source) nothing in
    (
      add_names n.edge_node_ids n.node_ids,
      sort str_ltb (keep (λ id. ltb 1 (count id n.counts)) (order (distinct n.counts))),
    )

-- the names that the diagram has
abbrev pub names_in : Diagram → List String
names_in d = map (λ e. e.from) d.edges ++ (map (λ e. e.to) d.edges ++ map (λ n. n.id) d.nodes)

-- `EnhanceASTWithSourceAnalysis`, on a diagram that is not nil
unfoldable pub enhance_ast_with_source_analysis :
    (List String → List String) → Diagram → String → Diagram
enhance_ast_with_source_analysis order d source =
    let (all_ids, duplicates) = analyze_source_nodes order source in
    if str_eq source "" then d else record d {
      source_node_ids = all_ids;
      disconnected_node_ids = keep (λ id. not (contains id (names_in d))) all_ids;
      duplicate_node_ids = duplicates;
    }
