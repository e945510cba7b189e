-- ===== src/Rules/RuleId.antt =====
-- internal/rules/rule_id_namespace.go: the names that rules are registered and configured under.
-- The errors are told apart and their texts are left out.
use Prim.Native.Char.{Char, code}
use Prim.Native.String
use merm.Prelude.{
  All, Bool-cases, eq_iff, ap, sym, ◌∙◌, ◌↔◌, refl, ℕ, ◌≡◌, String, Bool, true, false, not, ◌&&◌,
  ◌||◌, none, some, List, [], ◌∷◌, arith, leb, ◌==◌, if◌then◌else◌, str_eq, contains, Option-cases,
  ◌⊎◌, inl, inr,
}
use merm.Strings.{trim_space, strip_prefix, has_char, all_chars}

-- the keys of `builtInRuleMetadata`, which `buildBuiltInRuleIDSet` collects
unfoldable pub built_in_rule_ids : List String
built_in_rule_ids =
    "max-fanout" ∷ "no-duplicate-node-ids" ∷ "no-disconnected-nodes" ∷ "max-depth" ∷ "no-cycles"
    ∷ "class-no-orphan-classes" ∷ "er-no-isolated-entities" ∷ "sequence-max-participants"
    ∷ "state-no-unreachable-states" ∷ []

-- `[a-z0-9]`
unfoldable pub is_segment_start : Char → Bool
is_segment_start c =
    leb b'a' (code c) && leb (code c) b'z' || leb b'0' (code c) && leb (code c) b'9'

-- `isValidRuleIDSegment`: ^[a-z0-9][a-z0-9-]*$
unfoldable pub is_valid_segment : String → Bool
unfolding is_segment_start
is_valid_segment String.[] = false
is_valid_segment (String.◌∷◌ c s) =
    is_segment_start c && all_chars (λ d. is_segment_start d || code d == b'-') s

-- a character put before the first part
unfoldable pub extend_first : Char → List String → List String
extend_first c [] = String.◌∷◌ c "" ∷ []
extend_first c (s ∷ parts) = String.◌∷◌ c s ∷ parts

-- `strings.Split` at a character
unfoldable pub split : ℕ → String → List String
unfolding extend_first
split sep String.[] = "" ∷ []
split sep (String.◌∷◌ c s) =
    let rest = split sep s in
    elim (code c == sep) [ true ↦ "" ∷ rest | false ↦ extend_first c rest ]

pub data RegistrationError : Type 0 where
  empty core_form core_reserved custom_form unsupported_namespace bad_segment : RegistrationError

-- accepted silently, with a warning that the id is a legacy one, or not
pub data Registration : Type 0 where
  accepted legacy : Registration
  refused : RegistrationError → Registration

-- the parts of `custom/<provider>/<id>`
unfoldable pub is_custom_form : List String → Bool
is_custom_form (a ∷ b ∷ c ∷ []) = is_valid_segment b && is_valid_segment c
is_custom_form _ = false

-- `ValidateRegisteredRuleID`, behind the test for the prefix `core/`
unfoldable pub validate_plain : String → Registration
validate_plain rule_id =
    let plain : Registration =
      if has_char b'/' rule_id
      then refused unsupported_namespace
      else if not (is_valid_segment rule_id)
      then refused bad_segment
      else if contains rule_id built_in_rule_ids
      then accepted
      else legacy in
    elim (strip_prefix "custom/" rule_id) [
      | some _ ↦ if is_custom_form (split b'/' rule_id) then accepted else refused custom_form
      | none ↦ plain
    ]

-- `ValidateRegisteredRuleID`
unfoldable pub validate_registered_rule_id : String → Registration
validate_registered_rule_id raw_rule_id =
    let rule_id = trim_space raw_rule_id in
    let named : Registration = elim (strip_prefix "core/" rule_id) [
      | none ↦ validate_plain rule_id
      | some rule_name ↦
          if not (is_valid_segment rule_name)
          then refused core_form
          else if not (contains rule_name built_in_rule_ids)
          then refused core_reserved
          else accepted
    ] in
    if str_eq rule_id "" then refused empty else named

abbrev has_prefix : String → String → Bool
has_prefix p s = elim (strip_prefix p s) [ none ↦ false | some _ ↦ true ]

-- `CanonicalRuleRegistrationID`
unfoldable pub canonical_rule_registration_id : String → String
canonical_rule_registration_id raw_rule_id =
    let rule_id = trim_space raw_rule_id in
    if has_prefix "core/" rule_id || has_prefix "custom/" rule_id
    then rule_id
    else if contains rule_id built_in_rule_ids
    then String.◌++◌ "core/" rule_id
    else String.◌++◌ "custom/legacy/" rule_id

pub data RuleIdError : Type 0 where
  empty_id unknown_id : RuleIdError

-- `NormalizeConfigRuleID` of an id without space around it
unfoldable pub normalize_trimmed : String → List String → RuleIdError ⊎ String
normalize_trimmed rule_id known_rule_ids = elim (strip_prefix "core/" rule_id) [
  | none ↦ if contains rule_id known_rule_ids then inr rule_id else inl unknown_id
  | some inner ↦
      if not (is_valid_segment inner)
      then inl unknown_id
      else if not (contains inner built_in_rule_ids)
      then inl unknown_id
      else if not (contains inner known_rule_ids)
      then inl unknown_id
      else inr inner
]

-- `NormalizeConfigRuleID`; its warning, which is logged, is left out
unfoldable pub normalize_config_rule_id : String → List String → RuleIdError ⊎ String
normalize_config_rule_id raw_rule_id known_rule_ids =
    let rule_id = trim_space raw_rule_id in
    if str_eq rule_id "" then inl empty_id else normalize_trimmed rule_id known_rule_ids

normalize_trimmed-known :
    (rule_id : String) (known : List String) (r : String)
    → normalize_trimmed rule_id known ≡ inr r
    → contains r known ≡ true
unfolding normalize_trimmed
normalize_trimmed-known rule_id known r h = elim (Option-cases (strip_prefix "core/" rule_id)) [
  | inl plain ↦ ground arith
  | inr (inner, core) ↦ ground arith
]

-- A configured rule id that is accepted stands for a registered rule.
pub normalize_config_rule_id-known :
    (raw : String) (known : List String) (r : String)
    → normalize_config_rule_id raw known ≡ inr r
    → contains r known ≡ true
unfolding normalize_config_rule_id
normalize_config_rule_id-known raw known r h =
    ground (arith, normalize_trimmed-known (trim_space raw) known r)

listed_valid :
    (r : String) (ids : List String)
    → All (λ id. is_valid_segment id ≡ true) ids
    → contains r ids ≡ true
    → is_valid_segment r ≡ true
unfolding contains
listed_valid r [] a h = absurd (ground arith)
listed_valid r (id ∷ ids) a h = elim (Bool-cases (str_eq id r)) [
  | inl same ↦ ap is_valid_segment (sym ((eq_iff id r).0 same)) ∙ a.0
  | inr ne ↦ listed_valid r ids a.1 (ground (arith, h, ne))
]

-- every name in the metadata has the form that is asked for behind `core/`
built_in-valid : (r : String) → contains r built_in_rule_ids ≡ true → is_valid_segment r ≡ true
unfolding built_in_rule_ids is_valid_segment is_segment_start all_chars
built_in-valid r =
    listed_valid r built_in_rule_ids
      (refl, (refl, (refl, (refl, (refl, (refl, (refl, (refl, (refl, tt)))))))))

-- what a text without space around it may name: a registered rule without `core/` in front of it, or with
-- it, which is only good for the names in the metadata
abbrev pub Names : String → String → Type 0
Names rule_id r =
    ((strip_prefix "core/" rule_id ≡ none) × (rule_id ≡ r))
    ⊎ ((strip_prefix "core/" rule_id ≡ some r) × (contains r built_in_rule_ids ≡ true))

normalize_trimmed_iff :
    (rule_id : String) (known : List String) (r : String)
    → (normalize_trimmed rule_id known ≡ inr r) ↔ ((contains r known ≡ true) × Names rule_id r)
unfolding normalize_trimmed
normalize_trimmed_iff rule_id known r = elim (Option-cases (strip_prefix "core/" rule_id)) [
  | inl plain ↦ (λ h. ground (arith, plain), λ h. ground (arith, plain))
  | inr (inner, core) ↦ (λ h. ground (arith, core), λ h. ground (arith, core, built_in-valid inner))
]

-- A configured rule id is accepted, as the name of a rule, exactly if that rule is registered and the id,
-- without the space around it, is not empty and is either the name, where it does not begin with `core/`, or
-- `core/` and the name, where the name is listed in the metadata.
pub normalize_config_rule_id_iff :
    (raw : String) (known : List String) (r : String)
    → (normalize_config_rule_id raw known ≡ inr r) ↔ (
        (str_eq (trim_space raw) "" ≡ false) × (contains r known ≡ true) × Names (trim_space raw) r)
unfolding normalize_config_rule_id
normalize_config_rule_id_iff raw known r =
    let (to, from) = normalize_trimmed_iff (trim_space raw) known r in
    elim (Bool-cases (str_eq (trim_space raw) "")) [
      | inl blank ↦ (λ h. absurd (ground arith), λ h. absurd (ground arith))
      | inr full ↦ (
        λ h. let (registered, names) = to (ground arith) in (full, registered, names),
        λ (f, registered, names). ground (arith, from (registered, names)),
      )
    ]
