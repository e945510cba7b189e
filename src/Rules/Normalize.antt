-- ===== src/Rules/Normalize.antt =====
-- internal/rules/rule.go: `NormalizeConfig`. A Go map is a list in the order in which it is iterated
-- over, which Go leaves open; a `nil` configuration is the empty one.
pub mod Given
pub mod Rounds
pub mod Same
use merm.Prelude.{
  ◌≡◌, refl, ◌≢◌, String, true, false, none, some, List, [], ◌∷◌, arith, str_eq, eq_iff, lookup,
  contains, inl, inr, Option-cases, ◌⊎◌, All,
}
use merm.Rules.Config.{RuleConfig, Config}
use merm.Rules.RuleId.{
  normalize_config_rule_id, normalize_config_rule_id-known, RuleIdError, empty_id, unknown_id,
}
use merm.Rules.Settings.{
  Result, ok, err, ConfigError, empty_rule_id, unknown_rule_id, normalize_meta_key, validate_config,
}

module _ {V : Type 0} where
  -- `m[k] = v`
  unfoldable pub assign : String → V → List (String × V) → List (String × V)
  assign k v [] = (k, v) ∷ []
  assign k v ((j, w) ∷ m) =
      let rest = assign k v m in elim (str_eq j k) [ true ↦ (k, v) ∷ m | false ↦ (j, w) ∷ rest ]

  pub lookup-assign_self :
      (k : String) (v : V) (m : List (String × V)) → lookup k (assign k v m) ≡ some v
  unfolding lookup assign
  lookup-assign_self k v [] = ground (arith, eq_iff k k)
  lookup-assign_self k v ((j, w) ∷ m) = ground (arith, eq_iff k k, lookup-assign_self k v m)

  pub lookup-assign_ne :
      (i k : String) (v : V) (m : List (String × V)) → i ≢ k → lookup i (assign k v m) ≡ lookup i m
  unfolding lookup assign
  lookup-assign_ne i k v [] n = ground (arith, eq_iff k i)
  lookup-assign_ne i k v ((j, w) ∷ m) n =
      ground (arith, eq_iff k i, eq_iff j k, eq_iff j i, lookup-assign_ne i k v m n)

-- the loop that normalizes the keys of one rule
unfoldable pub normalize_keys : RuleConfig → RuleConfig → RuleConfig
normalize_keys [] normalized = normalized
normalize_keys ((key, value) ∷ rest) normalized =
    normalize_keys rest (assign (normalize_meta_key key) value normalized)

-- the loop that adds to the settings of a rule those of another name for it
unfoldable pub merge_settings : RuleConfig → RuleConfig → RuleConfig
merge_settings [] existing = existing
merge_settings ((key, value) ∷ rest) existing =
    merge_settings rest
      (elim (lookup key existing) [ none ↦ assign key value existing | some _ ↦ existing ])

-- one round of `NormalizeConfig`, for the rule's canonical id
unfoldable pub add_rule : String → RuleConfig → Config → Config
add_rule rule_id raw normalized =
    let rule_config = normalize_keys raw [] in
    elim (lookup rule_id normalized) [
      | none ↦ assign rule_id rule_config normalized
      | some existing ↦ assign rule_id (merge_settings rule_config existing) normalized
    ]

abbrev id_error : RuleIdError → ConfigError
id_error empty_id = empty_rule_id
id_error unknown_id = unknown_rule_id

-- its loop
unfoldable pub normalize_rules : Config → List String → Config → Result Config
normalize_rules [] known normalized = ok normalized
normalize_rules ((rule_id, raw) ∷ rest) known normalized =
    elim (normalize_config_rule_id rule_id known) [
      | inl e ↦ err (id_error e)
      | inr canonical ↦ normalize_rules rest known (add_rule canonical raw normalized)
    ]

-- `NormalizeConfig`, behind its loop
unfoldable pub validated : Result Config → Result Config
validated (err e) = err e
validated (ok normalized) = elim (validate_config normalized normalized) [
  | some e ↦ err e
  | none ↦ ok normalized
]

-- `NormalizeConfig`
unfoldable pub normalize_config : Config → List String → Result Config
normalize_config cfg known = validated (normalize_rules cfg known [])

pub Sum-cases : {A B : Type 0} (e : A ⊎ B) → ((a : A) × (e ≡ inl a)) ⊎ ((b : B) × (e ≡ inr b))
Sum-cases (inl a) = inl (a, refl)
Sum-cases (inr b) = inr (b, refl)

pub Result-cases :
    {A : Type 0} (e : Result A) → ((x : ConfigError) × (e ≡ err x)) ⊎ ((a : A) × (e ≡ ok a))
Result-cases (err x) = inl (x, refl)
Result-cases (ok a) = inr (a, refl)

-- Every rule that a configuration holds is among the registered ones.
abbrev pub IsKnown : List String → Config → Type 0
IsKnown known = All (λ entry. contains entry.0 known ≡ true)

assign-IsKnown :
    (known : List String) (k : String) (v : RuleConfig) (m : Config)
    → contains k known ≡ true
    → IsKnown known m
    → IsKnown known (assign k v m)
unfolding assign
assign-IsKnown known k v [] h a = (h, tt)
assign-IsKnown known k v ((j, w) ∷ m) h a = ground (arith, assign-IsKnown known k v m h a.1)

add_rule-IsKnown :
    (known : List String) (k : String) (raw : RuleConfig) (m : Config)
    → contains k known ≡ true
    → IsKnown known m
    → IsKnown known (add_rule k raw m)
unfolding add_rule
add_rule-IsKnown known k raw m h a = elim (Option-cases (lookup k m)) [
  | inl new ↦ rw (new, add_rule) (assign-IsKnown known k _ m h a)
  | inr (old, found) ↦ rw (found, add_rule) (assign-IsKnown known k _ m h a)
]

normalize_rules-IsKnown :
    (cfg : Config) (known : List String) (acc r : Config)
    → IsKnown known acc
    → normalize_rules cfg known acc ≡ ok r
    → IsKnown known r
unfolding normalize_rules
normalize_rules-IsKnown [] known acc r a h = ground arith
normalize_rules-IsKnown ((rule_id, raw) ∷ rest) known acc r a h =
    elim (Sum-cases (normalize_config_rule_id rule_id known)) [
      | inl (e, refused) ↦ absurd (ground arith)
      | inr (k, accepted) ↦
          normalize_rules-IsKnown rest known (add_rule k raw acc) r
            (add_rule-IsKnown known k raw acc
              (normalize_config_rule_id-known rule_id known k accepted) a)
            (ground arith)
    ]

-- Every rule of a normalized configuration is a registered one, and the configuration is valid.
pub normalize_config-IsKnown :
    (cfg : Config) (known : List String) (r : Config)
    → normalize_config cfg known ≡ ok r
    → IsKnown known r × (validate_config r r ≡ none)
unfolding normalize_config validated
normalize_config-IsKnown cfg known r h = elim (Result-cases (normalize_rules cfg known [])) [
  | inl (e, bad) ↦ absurd (ground arith)
  | inr (n, good) ↦ elim (Option-cases (validate_config n n)) [
    | inl valid ↦ (normalize_rules-IsKnown cfg known [] r tt (ground arith), ground arith)
    | inr (e, invalid) ↦ absurd (ground arith)
  ]
]
