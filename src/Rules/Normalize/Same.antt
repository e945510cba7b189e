-- ===== src/Rules/Normalize/Same.antt =====
-- `NormalizeConfig` of internal/rules/rule.go does not depend on the order of the maps that it goes through.
use merm.Prelude.{
  ◌≡◌, ◌↔◌, ◌⊎◌, refl, sym, ap, subst, ◌∙◌, String, none, some, Option, List, [], ◌∷◌, arith,
  str_eq_refl, eq_iff, lookup, Option-cases, String-cases, Any, inl, inr, if◌then◌else◌,
}
use merm.Rules.Config.{Value, flag, RuleConfig, Config}
use merm.Rules.RuleId.{RuleIdError, normalize_config_rule_id}
use merm.Rules.Settings.{
  Result, ok, err, ConfigError, enabled_type, selectors_type, selector_form, severity_of,
  selectors_of, all_selectors, resolve_severity, validate_rule, validate_config,
}
use merm.Rules.Normalize.{
  assign, lookup-assign_ne, normalize_keys, add_rule, normalize_rules, validated, normalize_config,
  Sum-cases,
}
use merm.Rules.Normalize.Given.{setting}
use merm.Rules.Normalize.Rounds.{
  IsUnambiguous, GiveSame, normalize_rules-same, add_rule-added_rule, added_rule,
}

-- Two configurations have the same settings.
abbrev pub SameSettings : Config → Config → Type 0
SameSettings m n = (rule_id key : String) → setting rule_id key m ≡ setting rule_id key n

-- Two normalizations are refused, for any reasons, or have the same settings.
abbrev pub SameResult : Result Config → Result Config → Type 0
SameResult (err e) (err f) = Unit
SameResult (ok m) (ok n) = SameSettings m n
SameResult _ _ = ⊥

-- A configuration names a rule that is not registered.
abbrev pub NamesUnknown : List String → Config → Type 0
NamesUnknown known =
    Any (λ entry. (e : RuleIdError) × (normalize_config_rule_id entry.0 known ≡ inl e))

normalize_rules-NamesUnknown :
    (cfg : Config) (known : List String) (acc : Config)
    → ((e : ConfigError) × (normalize_rules cfg known acc ≡ err e) × NamesUnknown known cfg)
      ⊎ ((n : Config) × (normalize_rules cfg known acc ≡ ok n) × ¬ NamesUnknown known cfg)
unfolding normalize_rules
normalize_rules-NamesUnknown [] known acc = inr (acc, refl, λ h. h)
normalize_rules-NamesUnknown ((name, raw) ∷ rest) known acc =
    elim (Sum-cases (normalize_config_rule_id name known)) [
      | inl (e, refused) ↦ rw (refused, normalize_rules) (inl (_, refl, inl (e, refl)))
      | inr (k, accepted) ↦ elim (normalize_rules-NamesUnknown rest known (add_rule k raw acc)) [
        | inl (e, bad, named) ↦ inl (e, ground (arith, accepted, bad), inr named)
        | inr (n, good, never) ↦ inr (
          n,
          ground (arith, accepted, good),
          λ h. elim h [ inl (e, refused) ↦ absurd (ground arith) | inr later ↦ never later ],
        )
      ]
    ]

-- no rule is listed twice
abbrev IsDistinct : Config → Type 0
IsDistinct [] = Unit
IsDistinct ((name, rc) ∷ m) = (lookup name m ≡ none) × IsDistinct m

assign-IsDistinct :
    (name : String) (rc : RuleConfig) (m : Config) → IsDistinct m → IsDistinct (assign name rc m)
unfolding assign lookup
assign-IsDistinct name rc [] d = (refl, tt)
assign-IsDistinct name rc ((j, w) ∷ m) (fresh, d) = elim (String-cases j name) [
  | inl same ↦
      let kept : IsDistinct ((name, rc) ∷ m) = (subst (λ k. lookup k m ≡ none) same fresh, d) in
      subst IsDistinct {x = (name, rc) ∷ m} (ground (arith, eq_iff j name, same)) kept
  | inr ne ↦
      let kept : IsDistinct ((j, w) ∷ assign name rc m) =
        (lookup-assign_ne j name rc m ne ∙ fresh, assign-IsDistinct name rc m d) in
      subst IsDistinct {x = (j, w) ∷ assign name rc m} (ground (arith, eq_iff j name, ne)) kept
]

normalize_rules-IsDistinct :
    (cfg : Config) (known : List String) (acc n : Config)
    → IsDistinct acc
    → normalize_rules cfg known acc ≡ ok n
    → IsDistinct n
unfolding normalize_rules
normalize_rules-IsDistinct [] known acc n d h = subst IsDistinct (ground arith) d
normalize_rules-IsDistinct ((name, raw) ∷ rest) known acc n d h =
    elim (Sum-cases (normalize_config_rule_id name known)) [
      | inl (e, refused) ↦ absurd (ground arith)
      | inr (k, accepted) ↦
          normalize_rules-IsDistinct rest known (add_rule k raw acc) n
            (subst IsDistinct (sym (add_rule-added_rule k raw acc))
              (assign-IsDistinct k (added_rule (lookup k acc) (normalize_keys raw [])) acc d))
            (ground arith)
    ]

-- the check of one rule, by its settings
severity_by : Option Value → Result String
severity_by none = ok "warning"
severity_by (some raw) = severity_of raw

check : Result String → Option Value → Option Value → Option ConfigError
check resolved enabled raw_selectors =
    let selectors : Option ConfigError = elim raw_selectors [
      | none ↦ none
      | some raw ↦ elim (selectors_of raw) [
        | none ↦ some selectors_type
        | some s ↦ if all_selectors s then none else some selector_form
      ]
    ] in
    elim resolved [
      | err e ↦ some e
      | ok _ ↦ elim enabled [
        | none ↦ selectors
        | some raw ↦ elim raw [ flag _ ↦ selectors | _ ↦ some enabled_type ]
      ]
    ]

check_nothing : check (severity_by none) none none ≡ none
unfolding check severity_by
check_nothing = refl

resolve_severity-setting :
    (name : String) (cfg : Config)
    → resolve_severity name cfg "warning" ≡ severity_by (setting name "severity" cfg)
unfolding resolve_severity severity_by
resolve_severity-setting name cfg = by_settings (lookup name cfg)
  where
    by_settings :
        (o : Option RuleConfig)
        → (elim o [
          | none ↦ ok "warning"
          | some rc ↦ elim (lookup "severity" rc) [
            | none ↦ ok "warning"
            | some raw ↦ severity_of raw
          ]
        ])
          ≡ severity_by (elim o [ none ↦ none | some rc ↦ lookup "severity" rc ])
    by_settings none = refl
    by_settings (some rc) = refl

abbrev check_of : Config → String → Option ConfigError
check_of cfg name =
    check (severity_by (setting name "severity" cfg)) (setting name "enabled" cfg)
      (setting name "suppression-selectors" cfg)

validate_rule-check :
    (name : String) (cfg : Config) (rc : RuleConfig)
    → lookup name cfg ≡ some rc
    → validate_rule name cfg rc ≡ check_of cfg name
unfolding validate_rule check
validate_rule-check name cfg rc found =
    let value : (key : String) → lookup key rc ≡ setting name key cfg = (λ key.
      sym
        (ap (λ o. elim o as (λ _. Option Value) [ none ↦ none | some r ↦ lookup key r ]) found)) in
    ap (λ r. check r (lookup "enabled" rc) (lookup "suppression-selectors" rc))
      (resolve_severity-setting name cfg)
    ∙ (ap
          (λ e.
            check (severity_by (setting name "severity" cfg)) e (lookup "suppression-selectors" rc))
          (value "enabled")
        ∙ ap (λ s. check (severity_by (setting name "severity" cfg)) (setting name "enabled" cfg) s)
            (value "suppression-selectors"))

-- every rule in a valid list is valid
listed_valid :
    (l cfg : Config) (name : String) (rc : RuleConfig)
    → validate_config l cfg ≡ none
    → lookup name l ≡ some rc
    → validate_rule name cfg rc ≡ none
unfolding validate_config lookup
listed_valid [] cfg name rc h found = absurd (ground arith)
listed_valid ((j, w) ∷ l) cfg name rc h found =
    let now : validate_rule j cfg w ≡ none = ground arith in
    let rest : validate_config l cfg ≡ none = ground arith in
    elim (String-cases j name) [
      | inl same ↦
          subst (λ k. validate_rule k cfg rc ≡ none) same
            (subst (λ r. validate_rule j cfg r ≡ none) (ground (arith, eq_iff j name, same, found))
              now)
      | inr ne ↦ listed_valid l cfg name rc rest (ground (arith, eq_iff j name, ne, found))
    ]

valid_of_listed :
    (l cfg : Config)
    → IsDistinct l
    → ((name : String) (rc : RuleConfig)
        → lookup name l ≡ some rc
        → validate_rule name cfg rc ≡ none)
    → validate_config l cfg ≡ none
unfolding validate_config lookup
valid_of_listed [] cfg d each = refl
valid_of_listed ((j, w) ∷ l) cfg (fresh, d) each =
    let head : validate_rule j cfg w ≡ none = each j w (ground (arith, str_eq_refl j)) in
    let tail : validate_config l cfg ≡ none = valid_of_listed l cfg d (λ name rc found.
      each name rc (elim (String-cases j name) [
        | inl same ↦ absurd (ground (arith, found, sym (ap (λ k. lookup k l) same) ∙ fresh))
        | inr ne ↦ ground (arith, eq_iff j name, ne, found)
      ])) in
    ground (arith, head, tail)

-- a valid configuration, by its settings
validate_config-check :
    (m n : Config)
    → IsDistinct n
    → SameSettings m n
    → validate_config m m ≡ none
    → validate_config n n ≡ none
validate_config-check m n d same valid = valid_of_listed n n d (λ name rc found.
    let by_settings : check_of m name ≡ check_of n name =
      ap
        (λ s.
          check (severity_by s) (setting name "enabled" m) (setting name "suppression-selectors" m))
        (same name "severity")
      ∙ (ap
            (λ e.
              check (severity_by (setting name "severity" n)) e
                (setting name "suppression-selectors" m))
            (same name "enabled")
          ∙ ap (λ s. check (severity_by (setting name "severity" n)) (setting name "enabled" n) s)
              (same name "suppression-selectors")) in
    validate_rule-check name n rc found
    ∙ (sym by_settings ∙ (elim (Option-cases (lookup name m)) [
      | inr (r, there) ↦
          sym (validate_rule-check name m r there) ∙ listed_valid m m name r valid there
      | inl absent ↦ unset name absent
    ])))
  where
    unset : (name : String) → lookup name m ≡ none → check_of m name ≡ none
    unset name absent =
        ap
          (λ o.
            let value : String → Option Value =
              (λ key. elim o [ none ↦ none | some r ↦ lookup key r ]) in
            check (severity_by (value "severity")) (value "enabled")
              (value "suppression-selectors"))
          absent
        ∙ check_nothing

SameResult-by : {r r' q q' : Result Config} → r ≡ r' → q ≡ q' → SameResult r' q' → SameResult r q
SameResult-by {r' = r'} {q = q} e f h =
    subst (λ x. SameResult x q) (sym e) (subst (SameResult r') (sym f) h)

abbrev judged : Config → Option ConfigError → Result Config
judged m o = elim o [ some e ↦ err e | none ↦ ok m ]

normalized_same :
    (m n : Config)
    → IsDistinct m
    → IsDistinct n
    → SameSettings m n
    → SameResult (validated (ok m)) (validated (ok n))
unfolding validated
normalized_same m n dm dn same = elim (Option-cases (validate_config m m)) [
  | inl valid ↦
      SameResult-by (ap (judged m) valid) (ap (judged n) (validate_config-check m n dn same valid))
        same
  | inr (e, bad) ↦ elim (Option-cases (validate_config n n)) [
    | inr (e', bad') ↦ SameResult-by (ap (judged m) bad) (ap (judged n) bad') tt
    | inl valid' ↦
        let valid = validate_config-check n m dm (λ r k. sym (same r k)) valid' in
        absurd (ground (arith, bad, valid))
  ]
]

-- Two configurations that give the same settings, each setting one value, are normalized alike, whatever the
-- order of their maps: both are refused, or both are accepted with the same settings, if both or neither name
-- a rule that is not registered.
pub normalize_config-same :
    (cfg cfg' : Config) (known : List String)
    → IsUnambiguous known cfg
    → GiveSame known cfg cfg'
    → NamesUnknown known cfg ↔ NamesUnknown known cfg'
    → SameResult (normalize_config cfg known) (normalize_config cfg' known)
unfolding normalize_config validated
normalize_config-same cfg cfg' known one same unknown =
    elim (normalize_rules-NamesUnknown cfg known []) [
      | inl (e, bad, named) ↦ elim (normalize_rules-NamesUnknown cfg' known []) [
        | inl (e', bad', named') ↦ rw (bad, bad') tt
        | inr (n, good', never) ↦ absurd (never (unknown.0 named))
      ]
      | inr (m, good, never) ↦ elim (normalize_rules-NamesUnknown cfg' known []) [
        | inl (e', bad', named') ↦ absurd (never (unknown.1 named'))
        | inr (n, good', never') ↦
            subst (λ r. SameResult (validated r) (validated (normalize_rules cfg' known [])))
              (sym good)
              (subst (λ r. SameResult (validated (ok m)) (validated r)) (sym good')
                (normalized_same m n (normalize_rules-IsDistinct cfg known [] m tt good)
                  (normalize_rules-IsDistinct cfg' known [] n tt good')
                  (normalize_rules-same cfg cfg' known m n one same good good')))
      ]
    ]
