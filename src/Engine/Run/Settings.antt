-- ===== src/Engine/Run/Settings.antt =====
-- internal/engine/engine.go: a run reads of a configuration only its settings, the value of a key under the
-- name of a rule, whatever the order of its maps.
use mathlib.Core.List.{Permᴰ}
use mathlib.Core.List.Permᴰ
use merm.Prelude.{
  ◌≡◌, refl, sym, ap, ◌∙◌, String, Bool, true, none, some, Option, List, [], ◌∷◌, arith, keep,
  lookup, Bool-cases, All, inl, inr, not, ◌&&◌,
}
use merm.Model.{Issue, Diagram, DiagramFamily, family}
use merm.Rules.Config.{Value, flag, RuleConfig, Config}
use merm.Rules.Settings.{rule_enabled}
use merm.Rules.Normalize.Given.{setting}
use merm.Rules.Normalize.Same.{SameSettings}
use merm.Engine.Selectors.{
  LineIndex, selectors_in, suppression_selectors_for_rule, issue_matches_any_selector, is_left,
}
use merm.Engine.Run.{Rule, is_run, collect, supports_diagram_family}

enabled_by : Option Value → Bool
enabled_by none = true
enabled_by (some (flag enabled)) = enabled
enabled_by (some _) = true

rule_enabled-setting :
    (rule_id : String) (cfg : Config)
    → rule_enabled rule_id cfg ≡ enabled_by (setting rule_id "enabled" cfg)
unfolding rule_enabled enabled_by
rule_enabled-setting rule_id cfg = by_settings (lookup rule_id cfg)
  where
    by_settings :
        (o : Option RuleConfig)
        → (elim o [
          | none ↦ true
          | some rc ↦ elim (lookup "enabled" rc) [
            | none ↦ true
            | some raw ↦ elim raw [ flag enabled ↦ enabled | _ ↦ true ]
          ]
        ])
          ≡ enabled_by (elim o [ none ↦ none | some rc ↦ lookup "enabled" rc ])
    by_settings none = refl
    by_settings (some rc) = refl

selectors_by : Option Value → List String
selectors_by none = []
selectors_by (some raw) = selectors_in raw

selectors-setting :
    (rule_id : String) (cfg : Config)
    → suppression_selectors_for_rule cfg rule_id
      ≡ selectors_by (setting rule_id "suppression-selectors" cfg)
unfolding suppression_selectors_for_rule selectors_by
selectors-setting rule_id cfg = ground arith

pub is_run-same :
    (f : DiagramFamily) (m n : Config) (r : Rule) → SameSettings m n → is_run f m r ≡ is_run f n r
unfolding is_run
is_run-same f m n r same =
    ap (λ b. supports_diagram_family r f && b)
      (rule_enabled-setting r.id m
        ∙ (ap enabled_by (same r.id "enabled") ∙ sym (rule_enabled-setting r.id n)))

pub is_left-same :
    (m n : Config) (index : LineIndex) (i : Issue)
    → SameSettings m n
    → is_left m index i ≡ is_left n index i
unfolding is_left
is_left-same m n index i same =
    ap (λ s. elim s [ [] ↦ true | x ∷ rest ↦ not (issue_matches_any_selector i (x ∷ rest) index) ])
      (selectors-setting i.rule_id m
        ∙ (ap selectors_by (same i.rule_id "suppression-selectors")
            ∙ sym (selectors-setting i.rule_id n)))

pub keep-same :
    (t u : Issue → Bool) (l : List Issue) → ((i : Issue) → t i ≡ u i) → keep t l ≡ keep u l
unfolding keep
keep-same t u [] h = refl
keep-same t u (x ∷ l) h = ground (arith, h x, keep-same t u l h)

-- A rule that reads only the settings finds the same on a diagram, in any order.
abbrev pub Reads : Diagram → Rule → Type 0
Reads d r = (m n : Config) → SameSettings m n → Permᴰ (r.run d m) (r.run d n)

pub collect-same :
    (rs : List Rule) (d : Diagram) (m n : Config)
    → All (Reads d) rs
    → SameSettings m n
    → Permᴰ (collect rs d m) (collect rs d n)
unfolding collect
collect-same [] d m n a same = Permᴰ.nil
collect-same (r ∷ rs) d m n a same =
    let rest = collect-same rs d m n a.1 same in
    let run = is_run-same (family d.type) m n r same in
    elim (Bool-cases (is_run (family d.type) n r)) [
      | inl yes' ↦
          rw (run ∙ yes', yes', collect)
            (Permᴰ.trans (Permᴰ.append_right (collect rs d m) (a.0 m n same))
              (Permᴰ.append_left (r.run d n) rest))
      | inr no' ↦ rw (run ∙ no', no', collect) rest
    ]
