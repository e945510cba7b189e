-- ===== src/Rules/Normalize/Given.antt =====
-- What `NormalizeConfig` of internal/rules/rule.go makes of the settings that a configuration gives.
use merm.Prelude.{
  ◌≡◌, ◌⊎◌, sym, ap, subst, ◌∙◌, String, true, false, none, some, Option, List, [], ◌∷◌, arith,
  str_eq, eq_iff, lookup, Option-cases, String-cases, Bool-cases, Any, inl, inr,
}
use merm.Rules.Config.{Value, RuleConfig, Config}
use merm.Rules.RuleId.{normalize_config_rule_id}
use merm.Rules.Settings.{normalize_meta_key}
use merm.Rules.Normalize.{
  assign, lookup-assign_self, lookup-assign_ne, normalize_keys, merge_settings,
}

-- a setting of a rule
abbrev pub setting : String → String → Config → Option Value
setting rule_id key cfg = elim (lookup rule_id cfg) [ none ↦ none | some rc ↦ lookup key rc ]

-- the settings of one rule as they are given: a value for a key, under any name of the key
abbrev pub GivesKey : String → Value → RuleConfig → Type 0
GivesKey key v = Any (λ entry. (normalize_meta_key entry.0 ≡ key) × (entry.1 ≡ v))

-- a value that a configuration gives a setting, under any names of the rule and the key
abbrev pub Gives : List String → String → String → Value → Config → Type 0
Gives known rule_id key v =
    Any (λ entry. (normalize_config_rule_id entry.0 known ≡ inr rule_id) × GivesKey key v entry.1)

-- from where a value comes, and that none is lost
pub record Comes (before after : Option Value) (Given : Value → Type 0) : Type 0 where
  pub from : (v : Value) → after ≡ some v → (before ≡ some v) ⊎ Given v
  pub lost : after ≡ none → (before ≡ none) × ((v : Value) → ¬ Given v)

pub normalize_keys-Comes :
    (raw acc : RuleConfig) (key : String)
    → Comes (lookup key acc) (lookup key (normalize_keys raw acc)) (λ v. GivesKey key v raw)
unfolding normalize_keys
normalize_keys-Comes [] acc key = record { from = λ v h. inl h; lost = λ h. (h, λ v g. g) }
normalize_keys-Comes ((name, value) ∷ rest) acc key =
    let next = normalize_keys-Comes rest (assign (normalize_meta_key name) value acc) key in
    elim (String-cases (normalize_meta_key name) key) [
      | inl same ↦
          let set : lookup key (assign (normalize_meta_key name) value acc) ≡ some value =
            subst (λ k. lookup k (assign (normalize_meta_key name) value acc) ≡ some value) same
              (lookup-assign_self (normalize_meta_key name) value acc) in
          record {
            from = λ v h. elim (next.from v h) [
              | inl old ↦ inr (inl (same, ground (arith, set, old)))
              | inr new ↦ inr (inr new)
            ];
            lost = λ h. (let (gone, never) = next.lost h in absurd (ground (arith, set, gone)));
          }
      | inr ne ↦
          let kept : lookup key (assign (normalize_meta_key name) value acc) ≡ lookup key acc =
            lookup-assign_ne key (normalize_meta_key name) value acc (λ e. ne (sym e)) in
          record {
            from = λ v h. elim (next.from v h) [
              | inl old ↦ inl (sym kept ∙ old)
              | inr new ↦ inr (inr new)
            ];
            lost = λ h.
                let (gone, never) = next.lost h in
                (
                  sym kept ∙ gone,
                  λ v g. elim g [ inl here ↦ absurd (ne here.0) | inr later ↦ never v later ],
                );
          }
    ]

-- what has a value keeps it, and the rest is taken over
pub merge_settings-Comes :
    (new existing : RuleConfig) (key : String)
    → Comes
        (lookup key existing)
        (lookup key (merge_settings new existing))
        (λ v. Any (λ e. (e.0 ≡ key) × (e.1 ≡ v)) new)
unfolding merge_settings
merge_settings-Comes [] existing key = record { from = λ v h. inl h; lost = λ h. (h, λ v g. g) }
merge_settings-Comes ((name, value) ∷ rest) existing key =
    elim (Option-cases (lookup name existing)) [
      | inr (old, found) ↦
          let next = merge_settings-Comes rest existing key in
          rw (found, merge_settings)
            (record {
              from =
                  λ v h. elim (next.from v h) [ inl before ↦ inl before | inr new ↦ inr (inr new) ];
              lost = λ h.
                  let (gone, never) = next.lost h in
                  (
                    gone,
                    λ v g. elim g [
                      | inl here ↦
                          absurd (
                            ground (arith, sym found ∙ (ap (λ k. lookup k existing) here.0 ∙ gone)))
                      | inr later ↦ never v later
                    ],
                  );
            })
      | inl absent ↦
          let next = merge_settings-Comes rest (assign name value existing) key in
          rw (absent, merge_settings)
            (elim (String-cases name key) [
              | inl same ↦
                  let set : lookup key (assign name value existing) ≡ some value =
                    subst (λ k. lookup k (assign name value existing) ≡ some value) same
                      (lookup-assign_self name value existing) in
                  record {
                    from = λ v h. elim (next.from v h) [
                      | inl old ↦ inr (inl (same, ground (arith, set, old)))
                      | inr new ↦ inr (inr new)
                    ];
                    lost = λ h.
                        (let (gone, never) = next.lost h in absurd (ground (arith, set, gone)));
                  }
              | inr ne ↦
                  let kept : lookup key (assign name value existing) ≡ lookup key existing =
                    lookup-assign_ne key name value existing (λ e. ne (sym e)) in
                  record {
                    from = λ v h. elim (next.from v h) [
                      | inl old ↦ inl (sym kept ∙ old)
                      | inr new ↦ inr (inr new)
                    ];
                    lost = λ h.
                        let (gone, never) = next.lost h in
                        (
                          sym kept ∙ gone,
                          λ v g. elim g [
                            | inl here ↦ absurd (ne here.0)
                            | inr later ↦ never v later
                          ],
                        );
                  }
            ])
    ]

pub Any-lookup :
    (m : RuleConfig) (key : String) (v : Value)
    → lookup key m ≡ some v
    → Any (λ e. (e.0 ≡ key) × (e.1 ≡ v)) m
unfolding lookup
Any-lookup [] key v h = absurd (ground arith)
Any-lookup ((name, value) ∷ m) key v h = ground (arith, eq_iff name key, Any-lookup m key v)

Any-assign :
    (P : String × Value → Type 0) (key : String) (v : Value) (m : RuleConfig)
    → Any P (assign key v m)
    → P (key, v) ⊎ Any P m
unfolding assign
Any-assign P key v [] h = h
Any-assign P key v ((name, value) ∷ m) h = elim (Bool-cases (str_eq name key)) [
  | inl same ↦ elim (subst (Any P) (assign_here same) h) [
    | inl here ↦ inl here
    | inr later ↦ inr (inr later)
  ]
  | inr ne ↦ elim (subst (Any P) (assign_later ne) h) [
    | inl here ↦ inr (inl here)
    | inr later ↦ elim (Any-assign P key v m later) [ inl new ↦ inl new | inr old ↦ inr (inr old) ]
  ]
]
  where
    assign_here : str_eq name key ≡ true → assign key v ((name, value) ∷ m) ≡ (key, v) ∷ m
    assign_here same =
        ap (λ b. elim b [ true ↦ (key, v) ∷ m | false ↦ (name, value) ∷ assign key v m ]) same

    assign_later :
        str_eq name key ≡ false → assign key v ((name, value) ∷ m) ≡ (name, value) ∷ assign key v m
    assign_later ne =
        ap (λ b. elim b [ true ↦ (key, v) ∷ m | false ↦ (name, value) ∷ assign key v m ]) ne

-- an entry with normalized keys was given
pub Any-normalize_keys :
    (raw acc : RuleConfig) (key : String) (v : Value)
    → Any (λ e. (e.0 ≡ key) × (e.1 ≡ v)) (normalize_keys raw acc)
    → Any (λ e. (e.0 ≡ key) × (e.1 ≡ v)) acc ⊎ GivesKey key v raw
unfolding normalize_keys
Any-normalize_keys [] acc key v h = inl h
Any-normalize_keys ((name, value) ∷ rest) acc key v h =
    elim (Any-normalize_keys rest (assign (normalize_meta_key name) value acc) key v h) [
      | inr given ↦ inr (inr given)
      | inl kept ↦
          elim (Any-assign (λ e. (e.0 ≡ key) × (e.1 ≡ v)) (normalize_meta_key name) value acc
            kept) [ inl new ↦ inr (inl new) | inr old ↦ inl old ]
    ]
