-- ===== src/Engine/Run.antt =====
-- internal/engine/engine.go: the engine and its run. A panic of `NewWithRules` is `none`; the logged
-- warnings are left out, and so are the sink's lock and the durations that it is told. SHA-256 and its
-- hexadecimal form are a parameter, `digest`.
pub mod Known
pub mod Settings
pub mod Stable
pub mod Registered
use Prim.Native.String
use merm.Prelude.{
  ℕ, ◌≡◌, refl, ◌⊎◌, inl, inr, String, Bool, true, false, not, ◌&&◌, ◌||◌, Option, none, some, List,
  [], ◌∷◌, ◌++◌, map, arith, if◌then◌else◌, str_eq, eq_iff, ℤ, keep, length, contains, negsuc, All,
}
use merm.Model.{Issue, IssueContext, Diagram, DiagramFamily, Family-eq, family}
use merm.Rules.Config.{Config}
use merm.Rules.Settings.{Result, ok, err, rule_enabled}
use merm.Rules.RuleId.{
  Registration, refused, accepted, legacy, validate_registered_rule_id,
  canonical_rule_registration_id,
}
use merm.Rules.Normalize.{normalize_config}
use merm.Engine.Suppress.{apply_suppressions}
use merm.Engine.Selectors.{apply_config_selectors}
use merm.Engine.Order.{sort_issues, dedupe_issues}

-- `Rule`; a rule that is no `DiagramFamilyRule` has no families
pub record Rule : Type 0 where
  pub id : String
  pub families : Option (List DiagramFamily)
  pub run : Diagram → Config → List Issue

-- whether `ValidateRegisteredRuleID` returns no error
unfoldable pub is_registrable : String → Bool
is_registrable id = elim (validate_registered_rule_id id) [ refused _ ↦ false | _ ↦ true ]

-- the loop of `NewWithRules`, with the rules that it has appended
unfoldable pub register : List Rule → List String → List Rule → Option (List Rule)
register [] seen appended = some appended
register (r ∷ rules) seen appended =
    let rest = register rules (canonical_rule_registration_id r.id ∷ seen) (appended ++ (r ∷ [])) in
    if not (is_registrable r.id)
    then none
    else if contains (canonical_rule_registration_id r.id) seen
    then none
    else rest

-- `NewWithRules`
unfoldable pub new_with_rules : List Rule → Option (List Rule)
new_with_rules rules = register rules [] []

unfoldable pub has_family : DiagramFamily → List DiagramFamily → Bool
has_family f [] = false
has_family f (g ∷ fs) = Family-eq g f || has_family f fs

-- `SupportsDiagramFamily`
unfoldable pub supports_diagram_family : Rule → DiagramFamily → Bool
supports_diagram_family r f = elim r.families [
  | none ↦ true
  | some fs ↦ elim fs [ [] ↦ true | g ∷ gs ↦ has_family f (g ∷ gs) ]
]

-- the set of `DiagramFamilies`
unfoldable pub all_families : List Rule → List DiagramFamily
all_families [] = []
all_families (r ∷ rules) =
    let rest = all_families rules in elim r.families [ none ↦ rest | some fs ↦ fs ++ rest ]

-- `DiagramFamilies`
unfoldable pub diagram_families : List Rule → List DiagramFamily
diagram_families rules =
    keep (λ f. has_family f (all_families rules))
      (DiagramFamily.flowchart ∷ DiagramFamily.sequence ∷ DiagramFamily.class ∷ DiagramFamily.er
        ∷ DiagramFamily.state ∷ [])

-- `KnownRuleIDs`
abbrev pub known_rule_ids : List Rule → List String
known_rule_ids rules = map (λ r. r.id) rules

-- `unsupportedDiagramTypeIssue`
abbrev pub unsupported_diagram_type_issue : Diagram → Issue
unsupported_diagram_type_issue d = record {
  rule_id = "unsupported-diagram-type";
  severity = "info";
  message =
      String.◌++◌ "diagram type \""
        (String.◌++◌ d.type "\" is parsed but lint rules are not available yet");
  line = none;
  column = none;
  fingerprint = "";
  context = none;
}

-- `RuleMetrics`
pub record RuleMetrics : Type 0 where
  pub rule_id : String
  pub executions : ℕ
  pub issues_emitted : ℕ

-- whether the loop of `RunWithInstrumentation` runs a rule
unfoldable pub is_run : DiagramFamily → Config → Rule → Bool
is_run f cfg r = supports_diagram_family r f && rule_enabled r.id cfg

-- the findings of its loop
unfoldable pub collect : List Rule → Diagram → Config → List Issue
collect [] d cfg = []
collect (r ∷ rules) d cfg =
    let rest = collect rules d cfg in
    if is_run (family d.type) cfg r then r.run d cfg ++ rest else rest

-- what its loop tells the sink
unfoldable pub record_metrics : List Rule → Diagram → Config → List RuleMetrics
record_metrics [] d cfg = []
record_metrics (r ∷ rules) d cfg =
    let rest = record_metrics rules d cfg in
    if is_run (family d.type) cfg r
    then record { rule_id = r.id; executions = 1; issues_emitted = length (r.run d cfg) } ∷ rest
    else rest

-- what becomes of the findings of the rules; the returns for an empty list return one
unfoldable pub report : List Issue → Diagram → Config → List Issue
report issues d cfg =
    dedupe_issues
      (sort_issues (apply_config_selectors (apply_suppressions issues d.suppressions) d cfg))

module _ (digest : String → String) (print_int : ℤ → String) where
  -- `intValue`
  abbrev pub int_value : Option ℤ → ℤ
  int_value none = negsuc 0
  int_value (some v) = v

  abbrev pub context_id : Option IssueContext → String
  context_id none = ""
  context_id (some c) = c.subgraph_id

  abbrev pub context_label : Option IssueContext → String
  context_label none = ""
  context_label (some c) = c.subgraph_label

  unfoldable pub join : List String → String
  join [] = ""
  join (s ∷ []) = s
  join (s ∷ t ∷ rest) = String.◌++◌ s (String.◌++◌ "|" (join (t ∷ rest)))

  -- `issueFingerprint`
  unfoldable pub issue_fingerprint : Issue → String
  issue_fingerprint issue = digest (
      join (
        issue.rule_id
        ∷ issue.severity
        ∷ issue.message
        ∷ print_int (int_value issue.line)
        ∷ print_int (int_value issue.column)
        ∷ context_id issue.context
        ∷ context_label issue.context
        ∷ []))

  -- `populateFingerprints`
  unfoldable pub populate_fingerprints : List Issue → List Issue
  populate_fingerprints [] = []
  populate_fingerprints (issue ∷ rest) =
      record issue { fingerprint = issue_fingerprint issue } ∷ populate_fingerprints rest

  -- `RunWithInstrumentation`, for a configuration that is normalized
  unfoldable pub run_family :
      List Rule → Diagram → Config → DiagramFamily → List Issue × List RuleMetrics
  run_family rules d normalized f = elim f [
    | DiagramFamily.unknown ↦ (unsupported_diagram_type_issue d ∷ [], [])
    | _ ↦ (
      populate_fingerprints (report (collect rules d normalized) d normalized),
      record_metrics rules d normalized,
    )
  ]

  -- what becomes of the configuration's normalization
  unfoldable pub run_normalized :
      List Rule → Diagram → Result Config → List Issue × List RuleMetrics
  run_normalized rules d (err _) = ([], [])
  run_normalized rules d (ok normalized) = run_family rules d normalized (family d.type)

  -- `RunWithInstrumentation`: the findings, and what the sink is told; a missing diagram is `none`
  unfoldable pub run_with_instrumentation :
      List Rule → Option Diagram → Config → List Issue × List RuleMetrics
  run_with_instrumentation rules none cfg = ([], [])
  run_with_instrumentation rules (some d) cfg =
      run_normalized rules d (normalize_config cfg (known_rule_ids rules))
