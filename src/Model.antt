-- ===== src/Model.antt =====
-- internal/model/diagram.go: the diagram and the findings that the parser, the rules and the
-- engine share. A `*int` is an `Option ℤ`, a string is a text of valid UTF-8.
use merm.Prelude.{ℤ, String, Bool, Option, List, [], ◌∷◌, if◌then◌else◌, str_eq, ◌≡◌, refl, All}

-- `DiagramType`, a string type, with its constants.
abbrev pub DiagramType : Type 0
DiagramType = String

pub data DiagramFamily : Type 0 where
  unknown flowchart sequence class er state : DiagramFamily

abbrev pub Family-eq : DiagramFamily → DiagramFamily → Bool
Family-eq unknown unknown = Bool.true
Family-eq flowchart flowchart = Bool.true
Family-eq sequence sequence = Bool.true
Family-eq class class = Bool.true
Family-eq er er = Bool.true
Family-eq state state = Bool.true
Family-eq _ _ = Bool.false

-- `RecognizedDiagramTypes`
unfoldable pub recognized_types : List DiagramType
recognized_types = "flowchart" ∷ "sequence" ∷ "class" ∷ "er" ∷ "state" ∷ []

-- `DiagramTypesForFamily`
unfoldable pub types_for_family : DiagramFamily → List DiagramType
types_for_family flowchart = "flowchart" ∷ []
types_for_family sequence = "sequence" ∷ []
types_for_family class = "class" ∷ []
types_for_family er = "er" ∷ []
types_for_family state = "state" ∷ []
types_for_family unknown = []

-- `DiagramType.Family`
unfoldable pub family : DiagramType → DiagramFamily
family t =
    if str_eq t "flowchart"
    then flowchart
    else if str_eq t "sequence"
    then sequence
    else if str_eq t "class"
    then class
    else if str_eq t "er"
    then er
    else if str_eq t "state"
    then state
    else unknown

pub record Node : Type 0 where
  pub id : String
  pub label : String
  pub line : Option ℤ
  pub column : Option ℤ

pub record Edge : Type 0 where
  pub from : String
  pub to : String
  pub type : String
  pub line : Option ℤ
  pub column : Option ℤ

pub record Subgraph : Type 0 where
  pub id : String
  pub label : String
  pub nodes : List String

pub record SuppressionDirective : Type 0 where
  pub rule_id : String
  pub scope : String
  pub line : ℤ
  pub target_line : ℤ
  pub subgraph_id : String

pub record Diagram : Type 0 where
  pub type : DiagramType
  pub direction : String
  pub nodes : List Node
  pub edges : List Edge
  pub subgraphs : List Subgraph
  pub suppressions : List SuppressionDirective
  pub source_node_ids : List String
  pub disconnected_node_ids : List String
  pub duplicate_node_ids : List String
  pub start_states : List String

pub record IssueContext : Type 0 where
  pub subgraph_id : String
  pub subgraph_label : String

pub record Issue : Type 0 where
  pub rule_id : String
  pub severity : String
  pub message : String
  pub line : Option ℤ
  pub column : Option ℤ
  pub fingerprint : String
  pub context : Option IssueContext

-- The diagram types of a family are of that family.
pub family-types_for_family : (f : DiagramFamily) → All (λ t. family t ≡ f) (types_for_family f)
unfolding types_for_family family
family-types_for_family unknown = tt
family-types_for_family flowchart = (refl, tt)
family-types_for_family sequence = (refl, tt)
family-types_for_family class = (refl, tt)
family-types_for_family er = (refl, tt)
family-types_for_family state = (refl, tt)
