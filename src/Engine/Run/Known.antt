-- ===== src/Engine/Run/Known.antt =====
-- internal/rules/rule.go: the normalization of a configuration asks of the registered rules only
-- whether an id is among them.
use merm.Prelude.{◌≡◌, refl, ap, String, List, [], ◌∷◌, arith, contains, Option-cases, inl, inr}
use merm.Strings.{trim_space, strip_prefix}
use merm.Rules.Config.{Config}
use merm.Rules.RuleId.{normalize_trimmed, normalize_config_rule_id}
use merm.Rules.Normalize.{Sum-cases, add_rule, normalize_rules, normalize_config, validated}

normalize_trimmed_same :
    (rule_id : String) (ks js : List String)
    → ((k : String) → contains k ks ≡ contains k js)
    → normalize_trimmed rule_id ks ≡ normalize_trimmed rule_id js
unfolding normalize_trimmed
normalize_trimmed_same rule_id ks js h = elim (Option-cases (strip_prefix "core/" rule_id)) [
  | inl plain ↦ ground (arith, h rule_id)
  | inr (inner, core) ↦ ground (arith, h inner)
]

normalize_config_rule_id_same :
    (raw : String) (ks js : List String)
    → ((k : String) → contains k ks ≡ contains k js)
    → normalize_config_rule_id raw ks ≡ normalize_config_rule_id raw js
unfolding normalize_config_rule_id
normalize_config_rule_id_same raw ks js h =
    ground (arith, normalize_trimmed_same (trim_space raw) ks js h)

normalize_rules_same :
    (cfg acc : Config) (ks js : List String)
    → ((k : String) → contains k ks ≡ contains k js)
    → normalize_rules cfg ks acc ≡ normalize_rules cfg js acc
unfolding normalize_rules
normalize_rules_same [] acc ks js h = refl
normalize_rules_same ((rule_id, raw) ∷ rest) acc ks js h =
    elim (Sum-cases (normalize_config_rule_id rule_id js)) [
      | inl (e, bad) ↦ rw (normalize_config_rule_id_same rule_id ks js h, bad, normalize_rules) refl
      | inr (k, good) ↦
          rw (normalize_config_rule_id_same rule_id ks js h, good, normalize_rules)
            (normalize_rules_same rest (add_rule k raw acc) ks js h)
    ]

pub normalize_config_same :
    (cfg : Config) (ks js : List String)
    → ((k : String) → contains k ks ≡ contains k js)
    → normalize_config cfg ks ≡ normalize_config cfg js
unfolding normalize_config
normalize_config_same cfg ks js h = ap validated (normalize_rules_same cfg [] ks js h)
