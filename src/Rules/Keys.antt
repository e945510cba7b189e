-- ===== src/Rules/Keys.antt =====
-- What the rules of internal/rules have in common: sets and counts of ids, the nodes of an id, a limit
-- from the configuration, and the subgraph of a node (`NodeSubgraphContextForOccurrence` of
-- internal/rules/rule.go).
use merm.Prelude.{
  ap, ◌∙◌, ℕ, suc, zero, ◌<◌, ◌≡◌, ◌↔◌, refl, String, Bool, true, false, ◌||◌, ◌&&◌, Option, none,
  some, List, [], ◌∷◌, ◌++◌, arith, if◌then◌else◌, map, str_eq, eq_iff, contains, keep, lookup, Any,
  Bool-cases, inl, inr, ℤ, pos, negsuc, leb_ℤ, ltb_ℤ, ltb,
}
use merm.Model.{Issue, IssueContext, Node, Subgraph, Diagram}
use merm.Rules.Config.{Value, int, whole, Config}

-- the keys of a map with an entry for each text of a list
unfoldable pub distinct : List String → List String
distinct [] = []
distinct (x ∷ xs) = let rest = distinct xs in if contains x rest then rest else x ∷ rest

-- `m[id]++` for each id of a list, read at one of them
unfoldable pub count : String → List String → ℕ
count k [] = 0
count k (x ∷ xs) = let rest = count k xs in elim (str_eq x k) [ true ↦ suc rest | false ↦ rest ]

-- `m[id]` after a loop that writes each node under its id
unfoldable pub last_node : String → List Node → Option Node
last_node id [] = none
last_node id (n ∷ nodes) =
    let rest = last_node id nodes in
    elim rest [ some m ↦ some m | none ↦ if str_eq n.id id then some n else none ]

-- `m[id]` after a loop that writes a node under an id that is not there yet
unfoldable pub first_node : String → List Node → Option Node
first_node id [] = none
first_node id (n ∷ nodes) =
    let rest = first_node id nodes in elim (str_eq n.id id) [ true ↦ some n | false ↦ rest ]

abbrev pub line_of : Option Node → Option ℤ
line_of none = none
line_of (some n) = n.line

abbrev pub column_of : Option Node → Option ℤ
column_of none = none
column_of (some n) = n.column

-- a number of at least one, or the default
abbrev pub at_least_one : ℤ → ℤ → ℤ
at_least_one n default = if leb_ℤ (pos 1) n then n else default

-- `int(n)` of a `float64` that is the integer `n`
unfoldable pub int_of : ℤ → ℤ → ℤ
int_of n left_open =
    if leb_ℤ (negsuc 9223372036854775807) n && leb_ℤ n (pos 9223372036854775807)
    then n
    else left_open

-- the type switch on the limit
unfoldable pub limit_in : Value → ℤ → ℤ
limit_in (int n) default = at_least_one n default
limit_in (whole n left_open) default = if leb_ℤ (pos 1) n then int_of n left_open else default
limit_in _ default = default

-- the limit of a rule
unfoldable pub limit_of : String → Config → ℤ → ℤ
limit_of rule_id cfg default = elim (lookup rule_id cfg) [
  | none ↦ default
  | some rc ↦ elim (lookup "limit" rc) [ none ↦ default | some v ↦ limit_in v default ]
]

-- the loop over a subgraph's nodes: what is left to skip, or `none` if it returns
unfoldable pub occurrence_in : List String → String → ℕ → Option ℕ
occurrence_in [] node_id left = some left
occurrence_in (id ∷ ids) node_id left = elim (str_eq id node_id) [
  | true ↦ elim left [ zero ↦ none | suc fewer ↦ occurrence_in ids node_id fewer ]
  | false ↦ occurrence_in ids node_id left
]

-- the loop over the subgraphs
unfoldable pub context_from : List Subgraph → String → ℕ → Option IssueContext
context_from [] node_id left = none
context_from (s ∷ subgraphs) node_id left = elim (occurrence_in s.nodes node_id left) [
  | none ↦ some (record { subgraph_id = s.id; subgraph_label = s.label })
  | some fewer ↦ context_from subgraphs node_id fewer
]

-- `NodeSubgraphContextForOccurrence`
unfoldable pub node_subgraph_context_for_occurrence : Diagram → String → ℤ → Option IssueContext
node_subgraph_context_for_occurrence d node_id (pos occurrence) =
    context_from d.subgraphs node_id occurrence
node_subgraph_context_for_occurrence d node_id (negsuc _) = none

-- `NodeSubgraphContext`
unfoldable pub node_subgraph_context : Diagram → String → Option IssueContext
node_subgraph_context d node_id = node_subgraph_context_for_occurrence d node_id (pos 0)

pub contains-append :
    (k : String) (xs ys : List String) → contains k (xs ++ ys) ≡ (contains k xs || contains k ys)
unfolding contains
contains-append k [] ys = refl
contains-append k (x ∷ xs) ys = ground (arith, contains-append k xs ys)

pub contains-keep :
    (test : String → Bool) (k : String) (xs : List String)
    → contains k (keep test xs) ≡ (contains k xs && test k)
unfolding contains keep
contains-keep test k [] = refl
contains-keep test k (x ∷ xs) = ground (arith, eq_iff x k, contains-keep test k xs)

pub contains-distinct : (k : String) (xs : List String) → contains k (distinct xs) ≡ contains k xs
unfolding contains distinct
contains-distinct k [] = refl
contains-distinct k (x ∷ xs) = ground (arith, eq_iff x k, contains-distinct k xs)

-- only what is in a list counts
pub count-contains : (k : String) (xs : List String) → 0 < count k xs → contains k xs ≡ true
unfolding contains count
count-contains k [] h = ground arith
count-contains k (x ∷ xs) h = ground (arith, count-contains k xs)

-- the findings on a list of ids
Any-map :
    (f : String → Issue) (i : Issue) (ids : List String)
    → Any (λ j. j ≡ i) (map f ids) ↔ ((id : String) × (contains id ids ≡ true) × (f id ≡ i))
unfolding contains
Any-map f i [] = ground arith
Any-map f i (x ∷ ids) = (
  λ h. elim h [
    | inl here ↦ (x, ground (arith, eq_iff x x), here)
    | inr later ↦ let (id, c, e) = (Any-map f i ids).0 later in (id, ground arith, e)
  ],
  λ (id, c, e). elim (Bool-cases (str_eq x id)) [
    | inl same ↦ inl (ap f ((eq_iff x id).0 same) ∙ e)
    | inr ne ↦ inr ((Any-map f i ids).1 (id, ground arith, e))
  ],
)

-- findings on the ids that a condition picks out
pub Any-ids :
    (f : String → Issue) (i : Issue) (xs : List String) {P : String → Type 0}
    → ((k : String) → (contains k xs ≡ true) ↔ P k)
    → Any (λ j. j ≡ i) (map f xs) ↔ ((k : String) × P k × (f k ≡ i))
Any-ids f i xs h = (
  λ a. let (k, c, e) = (Any-map f i xs).0 a in (k, (h k).0 c, e),
  λ (k, p, e). (Any-map f i xs).1 (k, (h k).1 p, e),
)

-- the keys of a map of counts whose count is over the limit of a rule
pub over_iff :
    (order : List String → List String) (xs : List String) (limit : ℤ)
    → ((k : String) (ys : List String) → contains k (order ys) ≡ contains k ys)
    → (k : String)
    → (contains k (keep (λ id. ltb_ℤ limit (pos (count id xs))) (order (distinct xs))) ≡ true)
      ↔ ((contains k xs ≡ true) × (ltb_ℤ limit (pos (count k xs)) ≡ true))
over_iff order xs limit h k =
    let over : String → Bool = (λ id. ltb_ℤ limit (pos (count id xs))) in
    ground
      (arith, h k (distinct xs), contains-keep over k (order (distinct xs)), contains-distinct k xs)

-- the same for a number
pub count_over_iff :
    (order : List String → List String) (xs : List String) (limit : ℕ)
    → ((k : String) (ys : List String) → contains k (order ys) ≡ contains k ys)
    → (k : String)
    → (contains k (keep (λ id. ltb limit (count id xs)) (order (distinct xs))) ≡ true)
      ↔ (limit < count k xs)
count_over_iff order xs limit h k =
    let over : String → Bool = (λ id. ltb limit (count id xs)) in
    ground (
      arith,
      h k (distinct xs),
      contains-keep over k (order (distinct xs)),
      contains-distinct k xs,
      count-contains k xs,
    )
