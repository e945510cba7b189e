-- ===== src/Rules/Settings.antt =====
-- internal/rules/rule.go: what the configuration says of one rule. The errors are told apart and
-- their texts are left out.
use merm.Prelude.{
  ◌≡◌, inl, inr, String, Bool, true, false, ◌||◌, Option, none, some, List, [], ◌∷◌, if◌then◌else◌,
  str_eq, lookup, Option-cases, Bool-cases,
}
use merm.Strings.{to_lower, trim_space}
use merm.Rules.Config.{Value, text, flag, texts, array, RuleConfig, Config}
use merm.Rules.Selector.{parse_suppression_selector}

pub data ConfigError : Type 0 where
  severity_type severity_value enabled_type selectors_type selector_form : ConfigError
  empty_rule_id unknown_rule_id : ConfigError

pub data Result {ℓ} (A : Type ℓ) : Type ℓ where
  ok : A → Result A
  err : ConfigError → Result A

-- `allowedSeverities`
abbrev pub is_allowed_severity : String → Bool
is_allowed_severity s = str_eq s "error" || str_eq s "warning" || str_eq s "info"

-- `normalizeSeverity`
unfoldable pub normalize_severity : String → String
normalize_severity s = to_lower (trim_space s)

-- `resolveSeverity`, behind the lookups
unfoldable pub severity_of : Value → Result String
severity_of (text raw) =
    let severity = normalize_severity raw in
    if is_allowed_severity severity then ok severity else err severity_value
severity_of _ = err severity_type

-- `resolveSeverity`
unfoldable pub resolve_severity : String → Config → String → Result String
resolve_severity rule_id cfg default_severity = elim (lookup rule_id cfg) [
  | none ↦ ok default_severity
  | some rule_config ↦ elim (lookup "severity" rule_config) [
    | none ↦ ok default_severity
    | some raw ↦ severity_of raw
  ]
]

-- the severity, or the default after an error
unfoldable pub severity_or : String → Result String → String
severity_or default_severity (ok severity) = severity
severity_or default_severity (err _) = default_severity

-- `EffectiveSeverity`
unfoldable pub effective_severity : String → Config → String → String
effective_severity rule_id cfg default_severity =
    severity_or default_severity (resolve_severity rule_id cfg default_severity)

-- `RuleEnabled`
unfoldable pub rule_enabled : String → Config → Bool
rule_enabled rule_id cfg = elim (lookup rule_id cfg) [
  | none ↦ true
  | some rule_config ↦ elim (lookup "enabled" rule_config) [
    | none ↦ true
    | some raw ↦ elim raw [ flag enabled ↦ enabled | _ ↦ true ]
  ]
]

-- `normalizeMetaKey`
unfoldable pub normalize_meta_key : String → String
normalize_meta_key key =
    let normalized = to_lower (trim_space key) in
    if str_eq normalized "suppression"
      || str_eq normalized "suppress"
      || str_eq normalized "suppressions"
      || str_eq normalized "suppression-selectors"
      || str_eq normalized "suppression_selectors"
    then "suppression-selectors"
    else normalized

-- the loop of `ValidateConfig` that asks each element for a string
unfoldable pub strings_of : List (Option String) → Option (List String)
strings_of [] = some []
strings_of (none ∷ _) = none
strings_of (some s ∷ rest) = elim (strings_of rest) [
  | none ↦ none
  | some selectors ↦ some (s ∷ selectors)
]

-- its type switch on the selectors
unfoldable pub selectors_of : Value → Option (List String)
selectors_of (array elements) = strings_of elements
selectors_of (texts selectors) = some selectors
selectors_of _ = none

-- its loop over the selectors
unfoldable pub all_selectors : List String → Bool
all_selectors [] = true
all_selectors (s ∷ rest) = elim (parse_suppression_selector s) [
  | none ↦ false
  | some _ ↦ all_selectors rest
]

-- `ValidateConfig` at one rule; `none` is no error
unfoldable pub validate_rule : String → Config → RuleConfig → Option ConfigError
validate_rule rule_id cfg rule_config =
    let selectors : Option ConfigError = elim (lookup "suppression-selectors" rule_config) [
      | none ↦ none
      | some raw ↦ elim (selectors_of raw) [
        | none ↦ some selectors_type
        | some selectors ↦ if all_selectors selectors then none else some selector_form
      ]
    ] in
    elim (resolve_severity rule_id cfg "warning") [
      | err e ↦ some e
      | ok _ ↦ elim (lookup "enabled" rule_config) [
        | none ↦ selectors
        | some raw ↦ elim raw [ flag _ ↦ selectors | _ ↦ some enabled_type ]
      ]
    ]

-- `ValidateConfig`: the rules that are still to be looked at, in the map's order
unfoldable pub validate_config : List (String × RuleConfig) → Config → Option ConfigError
validate_config [] cfg = none
validate_config ((rule_id, rule_config) ∷ rest) cfg = elim (validate_rule rule_id cfg rule_config) [
  | some e ↦ some e
  | none ↦ validate_config rest cfg
]

severity_or-allowed :
    (v : Value) (d : String)
    → is_allowed_severity d ≡ true
    → is_allowed_severity (severity_or d (severity_of v)) ≡ true
unfolding severity_of severity_or
severity_or-allowed (text raw) d h =
    elim (Bool-cases (is_allowed_severity (normalize_severity raw))) [
      | inl valid ↦ rw (valid, severity_or) valid
      | inr invalid ↦ rw (invalid, severity_or) h
    ]
severity_or-allowed _ d h = h

-- Whatever the configuration holds, the severity that a rule reports with is an allowed one, if
-- its default is.
pub effective_severity_allowed :
    (rule_id : String) (cfg : Config) (d : String)
    → is_allowed_severity d ≡ true
    → is_allowed_severity (effective_severity rule_id cfg d) ≡ true
unfolding effective_severity resolve_severity severity_or
effective_severity_allowed rule_id cfg d h = elim (Option-cases (lookup rule_id cfg)) [
  | inl missing ↦ rw (missing, severity_or) h
  | inr (rc, found) ↦ elim (Option-cases (lookup "severity" rc)) [
    | inl unset ↦ rw (found, severity_or, unset) h
    | inr (v, set) ↦ rw (found, severity_or, set) (severity_or-allowed v d h)
  ]
]
