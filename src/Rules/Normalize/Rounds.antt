-- ===== src/Rules/Normalize/Rounds.antt =====
-- The rounds of `NormalizeConfig` of internal/rules/rule.go, and the settings that it ends with.
use merm.Prelude.{
  ◌≡◌, ◌↔◌, refl, sym, ap, subst, ◌∙◌, String, none, some, Option, List, [], ◌∷◌, arith, lookup,
  Option-cases, String-cases, inl, inr,
}
use merm.Rules.Config.{Value, RuleConfig, Config}
use merm.Rules.RuleId.{normalize_config_rule_id}
use merm.Rules.Settings.{ok}
use merm.Rules.Normalize.{
  assign, lookup-assign_self, lookup-assign_ne, normalize_keys, merge_settings, add_rule,
  normalize_rules, Sum-cases,
}
use merm.Rules.Normalize.Given.{
  setting, GivesKey, Gives, Comes, normalize_keys-Comes, merge_settings-Comes, Any-lookup,
  Any-normalize_keys,
}

-- what a round does to the settings of its rule
pub added_rule : (old : Option RuleConfig) → RuleConfig → RuleConfig
added_rule none new = new
added_rule (some existing) new = merge_settings new existing

abbrev keys_of : Option RuleConfig → String → Option Value
keys_of o key = elim o [ none ↦ none | some rc ↦ lookup key rc ]

added_rule-Comes :
    (old : Option RuleConfig) (raw : RuleConfig) (key : String)
    → Comes
        (keys_of old key)
        (lookup key (added_rule old (normalize_keys raw [])))
        (λ v. GivesKey key v raw)
unfolding added_rule lookup
added_rule-Comes none raw key = normalize_keys-Comes raw [] key
added_rule-Comes (some existing) raw key =
    let new = normalize_keys raw [] in
    let merged = merge_settings-Comes new existing key in
    let keys = normalize_keys-Comes raw [] key in
    record {
      from = λ v h. elim (merged.from v h) [
        | inl before ↦ inl before
        | inr taken ↦ elim (Any-normalize_keys raw [] key v taken) [
          | inl nothing ↦ absurd nothing
          | inr given ↦ inr given
        ]
      ];
      lost = λ h.
          let (gone, never) = merged.lost h in
          elim (Option-cases (lookup key new)) [
            | inr (v, there) ↦ absurd (never v (Any-lookup new key v there))
            | inl absent ↦ let (z, none_given) = keys.lost absent in (gone, none_given)
          ];
    }

pub add_rule-added_rule :
    (rule_id : String) (raw : RuleConfig) (m : Config)
    → add_rule rule_id raw m
      ≡ assign rule_id (added_rule (lookup rule_id m) (normalize_keys raw [])) m
unfolding add_rule added_rule
add_rule-added_rule rule_id raw m = by_old (lookup rule_id m)
  where
    by_old :
        (o : Option RuleConfig)
        → (elim o [
          | none ↦ assign rule_id (normalize_keys raw []) m
          | some existing ↦ assign rule_id (merge_settings (normalize_keys raw []) existing) m
        ])
          ≡ assign rule_id (added_rule o (normalize_keys raw [])) m
    by_old none = refl
    by_old (some existing) = refl

add_rule-Comes :
    (name : String) (raw : RuleConfig) (m : Config) (rule_id key : String)
    → Comes
        (setting rule_id key m)
        (setting rule_id key (add_rule name raw m))
        (λ v. (name ≡ rule_id) × GivesKey key v raw)
add_rule-Comes name raw m rule_id key =
    let merged = added_rule (lookup name m) (normalize_keys raw []) in
    let round = add_rule-added_rule name raw m in
    elim (String-cases name rule_id) [
      | inl same ↦
          let now : setting rule_id key (add_rule name raw m) ≡ lookup key merged =
            subst (λ r. setting r key (add_rule name raw m) ≡ lookup key merged) same
              (ap (λ o. keys_of o key)
                (ap (lookup name) round ∙ lookup-assign_self name merged m)) in
          let before : setting rule_id key m ≡ keys_of (lookup name m) key =
            subst (λ r. setting r key m ≡ keys_of (lookup name m) key) same refl in
          let c = added_rule-Comes (lookup name m) raw key in
          record {
            from = λ v h. elim (c.from v (sym now ∙ h)) [
              | inl old ↦ inl (before ∙ old)
              | inr given ↦ inr (same, given)
            ];
            lost = λ h.
                let (gone, never) = c.lost (sym now ∙ h) in (before ∙ gone, λ v (e, g). never v g);
          }
      | inr ne ↦
          let kept : setting rule_id key (add_rule name raw m) ≡ setting rule_id key m =
            ap (λ o. keys_of o key)
              (ap (lookup rule_id) round
                ∙ lookup-assign_ne rule_id name merged m (λ e. ne (sym e))) in
          record { from = λ v h. inl (sym kept ∙ h); lost = λ h. (sym kept ∙ h, λ v (e, g). ne e) }
    ]

normalize_rules-Comes :
    (cfg : Config) (known : List String) (acc n : Config) (rule_id key : String)
    → normalize_rules cfg known acc ≡ ok n
    → Comes (setting rule_id key acc) (setting rule_id key n) (λ v. Gives known rule_id key v cfg)
unfolding normalize_rules
normalize_rules-Comes [] known acc n rule_id key h =
    let same : setting rule_id key acc ≡ setting rule_id key n =
      ap (λ m. setting rule_id key m) (ground arith) in
    record { from = λ v e. inl (same ∙ e); lost = λ e. (same ∙ e, λ v g. g) }
normalize_rules-Comes ((name, raw) ∷ rest) known acc n rule_id key h =
    elim (Sum-cases (normalize_config_rule_id name known)) [
      | inl (e, refused) ↦ absurd (ground arith)
      | inr (canonical, accepted) ↦
          let round = add_rule-Comes canonical raw acc rule_id key in
          let next =
            normalize_rules-Comes rest known (add_rule canonical raw acc) n rule_id key
              (ground arith) in
          record {
            from = λ v e. elim (next.from v e) [
              | inr later ↦ inr (inr later)
              | inl old ↦ elim (round.from v old) [
                | inl before ↦ inl before
                | inr (same, given) ↦ inr (inl (accepted ∙ ap inr same, given))
              ]
            ];
            lost = λ e.
                let (gone, never) = next.lost e in
                let (gone', never') = round.lost gone in
                (
                  gone',
                  λ v g. elim g [
                    | inl (named, given) ↦ never' v (ground arith, given)
                    | inr later ↦ never v later
                  ],
                );
          }
    ]

-- Each setting has one value at most, in whatever order the configuration is gone through.
abbrev pub IsUnambiguous : List String → Config → Type 0
IsUnambiguous known cfg =
    (rule_id key : String) (v w : Value)
    → Gives known rule_id key v cfg
    → Gives known rule_id key w cfg
    → v ≡ w

-- Two configurations give the same settings.
abbrev pub GiveSame : List String → Config → Config → Type 0
GiveSame known cfg cfg' =
    (rule_id key : String) (v : Value)
    → Gives known rule_id key v cfg ↔ Gives known rule_id key v cfg'

pub normalize_rules-same :
    (cfg cfg' : Config) (known : List String) (m n : Config)
    → IsUnambiguous known cfg
    → GiveSame known cfg cfg'
    → normalize_rules cfg known [] ≡ ok m
    → normalize_rules cfg' known [] ≡ ok n
    → (rule_id key : String) → setting rule_id key m ≡ setting rule_id key n
unfolding lookup
normalize_rules-same cfg cfg' known m n one same a b rule_id key =
    let c = normalize_rules-Comes cfg known [] m rule_id key a in
    let c' = normalize_rules-Comes cfg' known [] n rule_id key b in
    elim (Option-cases (setting rule_id key m)) [
      | inl absent ↦ elim (Option-cases (setting rule_id key n)) [
        | inl absent' ↦ absent ∙ sym absent'
        | inr (w, there') ↦ elim (c'.from w there') [
          | inl bad ↦ absurd (ground arith)
          | inr g ↦ absurd ((c.lost absent).1 w ((same rule_id key w).1 g))
        ]
      ]
      | inr (v, there) ↦ elim (c.from v there) [
        | inl bad ↦ absurd (ground arith)
        | inr g ↦ elim (Option-cases (setting rule_id key n)) [
          | inl absent' ↦ absurd ((c'.lost absent').1 v ((same rule_id key v).0 g))
          | inr (w, there') ↦ elim (c'.from w there') [
            | inl bad ↦ absurd (ground arith)
            | inr g' ↦
                there ∙ (ap some (one rule_id key v w g ((same rule_id key w).1 g')) ∙ sym there')
          ]
        ]
      ]
    ]
