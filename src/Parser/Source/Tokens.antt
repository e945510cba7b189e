-- ===== src/Parser/Source/Tokens.antt =====
-- internal/parser/ast_enhancer.go: the tokens of a line.
use Prim.Native.Char.{Char, code}
use merm.Prelude.{
  ℕ, zero, suc, ◌+◌, ◌-◌, String, Bool, true, false, not, ◌&&◌, ◌||◌, List, [], ◌∷◌, if◌then◌else◌,
  leb, ◌==◌, contains,
}
use merm.Strings.{to_lower}

-- `tokenSpan`, with the text of the token
pub record Span : Type 0 where
  pub start : ℕ
  pub end : ℕ
  pub token : String

-- `mermaidKeywords`
abbrev pub mermaid_keywords : List String
mermaid_keywords =
    "graph" ∷ "subgraph" ∷ "end" ∷ "direction" ∷ "td" ∷ "lr" ∷ "du" ∷ "bt" ∷ "tb" ∷ "rl"
    ∷ "sequencediagram" ∷ "participant" ∷ "classdiagram" ∷ "class" ∷ "erdiagram" ∷ "statediagram"
    ∷ "state" ∷ "entity" ∷ "rel" ∷ []

-- `isKeyword`
unfoldable pub is_keyword : String → Bool
is_keyword s = contains (to_lower s) mermaid_keywords

-- `isIdentifierStart`
unfoldable pub is_identifier_start : Char → Bool
is_identifier_start c =
    leb 65 (code c) && leb (code c) 90 || leb 97 (code c) && leb (code c) 122 || code c == 95

-- `isASCIIDigit`
unfoldable pub is_ascii_digit : Char → Bool
is_ascii_digit c = leb 48 (code c) && leb (code c) 57

-- `isIdentifierCore`
unfoldable pub is_identifier_core : Char → Bool
is_identifier_core c = is_identifier_start c || is_ascii_digit c

abbrev is_dash : Char → Bool
is_dash c = code c == 45

-- the text begins with a character of an identifier
abbrev begins_core : String → Bool
begins_core String.[] = false
begins_core (String.◌∷◌ c s) = is_identifier_core c

-- the loop of `isValidNodeIDToken`, with the character in front
unfoldable pub valid_after : Char → String → Bool
valid_after before String.[] = not (is_dash before)
valid_after before (String.◌∷◌ c s) =
    let rest = valid_after c s in
    if is_dash c && (is_dash before || not (begins_core s)) then false else rest

-- `isValidNodeIDToken`
unfoldable pub is_valid_node_id_token : String → Bool
is_valid_node_id_token String.[] = false
is_valid_node_id_token (String.◌∷◌ c s) = if is_identifier_start c then valid_after c s else false

-- `scanNodeIDEnd`: the rest of a token, with the character in front
unfoldable pub scan_node_id_end : Char → String → String
scan_node_id_end before String.[] = ""
scan_node_id_end before (String.◌∷◌ c s) =
    let rest = scan_node_id_end c s in
    if is_identifier_core c || is_dash c && is_identifier_core before && begins_core s
    then String.◌∷◌ c rest
    else ""

-- the number of characters
unfoldable pub size : String → ℕ
size String.[] = 0
size (String.◌∷◌ c s) = suc (size s)

abbrev is_open : Char → Bool
is_open c = code c == 91 || code c == 40 || code c == 123

abbrev is_close : Char → Bool
is_close c = code c == 93 || code c == 41 || code c == 125

-- a token that is no name of a node
abbrev is_no_name : String → Bool
is_no_name token = is_keyword token || not (is_valid_node_id_token token)

-- the loop of `extractNodeIDSpans`: the place, the characters to pass, and the depth of `bracketStack`
unfoldable pub spans_from : ℕ → ℕ → ℕ → String → List Span
spans_from pos skip depth String.[] = []
spans_from pos (suc skip) depth (String.◌∷◌ c s) = spans_from (suc pos) skip depth s
spans_from pos zero depth (String.◌∷◌ c s) = elim (is_open c) [
  | true ↦ spans_from (suc pos) 0 (suc depth) s
  | false ↦ elim (is_close c) [
    | true ↦ spans_from (suc pos) 0 (depth - 1) s
    | false ↦ elim (leb 1 depth || not (is_identifier_start c)) [
      | true ↦ spans_from (suc pos) 0 depth s
      | false ↦
          let token = String.◌∷◌ c (scan_node_id_end c s) in
          let rest = spans_from (suc pos) (size token - 1) depth s in
          if is_no_name token
          then rest
          else record { start = pos; end = pos + size token; token = token } ∷ rest
    ]
  ]
]

-- `extractNodeIDSpans`
unfoldable pub extract_node_id_spans : String → List Span
extract_node_id_spans line = spans_from 0 0 0 line

-- what is left of a reversed text without its first blanks
unfoldable pub skip_blanks : String → String
skip_blanks String.[] = ""
skip_blanks (String.◌∷◌ c s) =
    let rest = skip_blanks s in if code c == 32 || code c == 9 then rest else String.◌∷◌ c s

-- the characters of a name at the beginning of a reversed text, put in front of a text
unfoldable pub name_before : String → String → String
name_before String.[] token = token
name_before (String.◌∷◌ c s) token =
    let rest = name_before s (String.◌∷◌ c token) in
    if is_identifier_start c || is_ascii_digit c || is_dash c then rest else token

-- the loop of `extractExplicitNodeDefinitions`, with the reversed text in front
unfoldable pub definitions_after : String → String → List String
definitions_after before String.[] = []
definitions_after before (String.◌∷◌ c s) =
    let rest = definitions_after (String.◌∷◌ c before) s in
    let token = name_before (skip_blanks before) "" in
    elim (is_open c) [ false ↦ rest | true ↦ if is_no_name token then rest else token ∷ rest ]

-- `extractExplicitNodeDefinitions`
unfoldable pub extract_explicit_node_definitions : String → List String
extract_explicit_node_definitions line = definitions_after "" line

-- `isEdgeOperatorChar`
unfoldable pub is_edge_operator_char : Char → Bool
is_edge_operator_char c =
    code c == 45
    || code c == 61
    || code c == 46
    || code c == 111
    || code c == 120
    || code c == 60
    || code c == 62

-- the number of connectors of a token
unfoldable pub connectors : String → ℕ
connectors String.[] = 0
connectors (String.◌∷◌ c s) =
    let rest = connectors s in
    if code c == 45 || code c == 61 || code c == 46 then suc rest else rest

-- `hasRight`
unfoldable pub has_right : String → Bool
has_right String.[] = false
has_right (String.◌∷◌ c s) = code c == 62 || has_right s

-- `isEdgeOperatorToken`
unfoldable pub is_edge_operator_token : String → Bool
is_edge_operator_token token =
    if leb 1 (connectors token) then has_right token || leb 2 (connectors token) else false

-- the characters of an operator at the beginning of a text
unfoldable pub operator_at : String → String
operator_at String.[] = ""
operator_at (String.◌∷◌ c s) =
    let rest = operator_at s in if is_edge_operator_char c then String.◌∷◌ c rest else ""

-- the loop of `extractEdgeOperators`: the place and the characters to pass
unfoldable pub operators_from : ℕ → ℕ → String → List Span
operators_from pos skip String.[] = []
operators_from pos (suc skip) (String.◌∷◌ c s) = operators_from (suc pos) skip s
operators_from pos zero (String.◌∷◌ c s) = elim (is_edge_operator_char c) [
  | false ↦ operators_from (suc pos) 0 s
  | true ↦
      let token = String.◌∷◌ c (operator_at s) in
      let rest = operators_from (suc pos) (size token - 1) s in
      if is_edge_operator_token token
      then record { start = pos; end = pos + size token; token = token } ∷ rest
      else rest
]

-- `extractEdgeOperators`
unfoldable pub extract_edge_operators : String → List Span
extract_edge_operators line = operators_from 0 0 line
