-- ===== src/Engine/Run/Stable.antt =====
-- internal/engine/engine.go: the findings of a run do not depend on the order in which the rules stand
-- and find them, which Go's iteration over maps leaves open.
use mathlib.Core.List.{Permᴰ}
use mathlib.Core.List.Permᴰ
use merm.Prelude.{
  ◌≡◌, ◌↔◌, refl, sym, ap, subst, ◌∙◌, String, Bool, not, some, List, [], ◌∷◌, ◌++◌, arith,
  if◌then◌else◌, contains, keep, Bool-cases, All, inl, inr, ℤ,
}
use merm.Model.{Issue, Diagram, DiagramFamily, family}
use merm.Rules.Config.{Config}
use merm.Rules.Settings.{Result, ok, err}
use merm.Rules.Normalize.{normalize_config}
use merm.Engine.Suppress.{is_suppressed, apply_suppressions-keep}
use merm.Engine.Selectors.{is_left, build_node_line_index, apply_config_selectors}
use merm.Engine.Order.Total.{IsFresh}
use merm.Engine.Order.Dedupe.{reported, reported-perm}
use merm.Rules.Normalize.Rounds.{IsUnambiguous, GiveSame}
use merm.Rules.Normalize.Same.{SameSettings, SameResult, NamesUnknown, normalize_config-same}
use merm.Engine.Run.Settings.{Reads, keep-same, is_left-same, collect-same}
use merm.Engine.Run.Known.{normalize_config_same}
use merm.Engine.Run.{
  Rule, is_run, collect, report, known_rule_ids, run_with_instrumentation, supports_diagram_family,
  run_family, run_normalized, populate_fingerprints,
}

-- Engines of the same rules, in any order, each of which finds the same on the diagram, in any order.
pub data IsAlike (d : Diagram) : List Rule → List Rule → Type 0 where
  nil : IsAlike d [] []
  cons :
      {r s : Rule} {rs ss : List Rule}
      → r.id ≡ s.id
      → r.families ≡ s.families
      → ((cfg : Config) → Permᴰ (r.run d cfg) (s.run d cfg))
      → IsAlike d rs ss
      → IsAlike d (r ∷ rs) (s ∷ ss)
  swap : {r s : Rule} {rs : List Rule} → IsAlike d (r ∷ s ∷ rs) (s ∷ r ∷ rs)
  trans : {rs ss ts : List Rule} → IsAlike d rs ss → IsAlike d ss ts → IsAlike d rs ts

-- what a rule adds to the findings
unfoldable pub block : Rule → Diagram → Config → List Issue
block r d cfg = if is_run (family d.type) cfg r then r.run d cfg else []

collect_cons :
    (r : Rule) (rs : List Rule) (d : Diagram) (cfg : Config)
    → collect (r ∷ rs) d cfg ≡ block r d cfg ++ collect rs d cfg
unfolding collect block
collect_cons r rs d cfg = elim (Bool-cases (is_run (family d.type) cfg r)) [
  | inl yes' ↦ ground arith
  | inr no' ↦ ground arith
]

perm-append : {a b c e : List Issue} → Permᴰ a b → Permᴰ c e → Permᴰ (a ++ c) (b ++ e)
perm-append {b = b} {c = c} p q = Permᴰ.trans (Permᴰ.append_right c p) (Permᴰ.append_left b q)

perm-blocks : (a b c : List Issue) → Permᴰ (a ++ (b ++ c)) (b ++ (a ++ c))
perm-blocks [] b c = Permᴰ.refl (b ++ c)
perm-blocks (x ∷ a) b c =
    Permᴰ.trans (Permᴰ.cons refl (perm-blocks a b c)) (Permᴰ.symm (Permᴰ.middle x b (a ++ c)))

is_run_same :
    (r s : Rule) (f : DiagramFamily) (cfg : Config)
    → r.id ≡ s.id
    → r.families ≡ s.families
    → is_run f cfg r ≡ is_run f cfg s
unfolding is_run supports_diagram_family
is_run_same r s f cfg i g = ground (arith, i, g)

perm-block :
    (r s : Rule) (d : Diagram) (cfg : Config)
    → r.id ≡ s.id
    → r.families ≡ s.families
    → Permᴰ (r.run d cfg) (s.run d cfg)
    → Permᴰ (block r d cfg) (block s d cfg)
unfolding block
perm-block r s d cfg i g p =
    let same = is_run_same r s (family d.type) cfg i g in
    elim (Bool-cases (is_run (family d.type) cfg s)) [
      | inl yes' ↦ rw (same, yes') p
      | inr no' ↦ rw (same, no') Permᴰ.nil
    ]

perm-collect :
    (d : Diagram) (cfg : Config) {rs ss : List Rule}
    → IsAlike d rs ss
    → Permᴰ (collect rs d cfg) (collect ss d cfg)
unfolding collect
perm-collect d cfg IsAlike.nil = Permᴰ.nil
perm-collect d cfg (IsAlike.cons {r} {s} {rs} {ss} i g p rest) =
    rw (collect_cons r rs d cfg, collect_cons s ss d cfg)
      (perm-append (perm-block r s d cfg i g (p cfg)) (perm-collect d cfg rest))
perm-collect d cfg (IsAlike.swap {r} {s} {rs}) =
    rw
      (
        collect_cons r (s ∷ rs) d cfg,
        collect_cons s rs d cfg,
        collect_cons s (r ∷ rs) d cfg,
        collect_cons r rs d cfg,
      )
      (perm-blocks (block r d cfg) (block s d cfg) (collect rs d cfg))
perm-collect d cfg (IsAlike.trans p q) = Permᴰ.trans (perm-collect d cfg p) (perm-collect d cfg q)

perm-keep : (test : Issue → Bool) {l m : List Issue} → Permᴰ l m → Permᴰ (keep test l) (keep test m)
unfolding keep
perm-keep test Permᴰ.nil = Permᴰ.nil
perm-keep test (Permᴰ.cons {a} {b} e p) = elim (Bool-cases (test a)) [
  | inl yes' ↦ rw (yes', ap test (sym e) ∙ yes', keep) (Permᴰ.cons e (perm-keep test p))
  | inr no' ↦ rw (no', ap test (sym e) ∙ no', keep) (perm-keep test p)
]
perm-keep test (Permᴰ.swap {a} {b} {a'} {b'} {l} e f) =
    let same_a : test b' ≡ test a = ap test (sym e) in
    let same_b : test a' ≡ test b = ap test (sym f) in
    elim (Bool-cases (test a)) [
      | inl yes_a ↦ elim (Bool-cases (test b)) [
        | inl yes_b ↦ rw (yes_a, yes_b, same_b ∙ yes_b, same_a ∙ yes_a, keep) (Permᴰ.swap e f)
        | inr no_b ↦
            rw (yes_a, no_b, same_b ∙ no_b, same_a ∙ yes_a, keep)
              (Permᴰ.cons e (Permᴰ.refl (keep test l)))
      ]
      | inr no_a ↦ elim (Bool-cases (test b)) [
        | inl yes_b ↦
            rw (no_a, yes_b, same_b ∙ yes_b, same_a ∙ no_a, keep)
              (Permᴰ.cons f (Permᴰ.refl (keep test l)))
        | inr no_b ↦ rw (no_a, no_b, same_b ∙ no_b, same_a ∙ no_a, keep) (Permᴰ.refl (keep test l))
      ]
    ]
perm-keep test (Permᴰ.trans p q) = Permᴰ.trans (perm-keep test p) (perm-keep test q)

keep-IsFresh : (test : Issue → Bool) (l : List Issue) → All IsFresh l → All IsFresh (keep test l)
unfolding keep
keep-IsFresh test [] a = tt
keep-IsFresh test (x ∷ l) a = elim (Bool-cases (test x)) [
  | inl yes' ↦ rw (yes', keep) (a.0, keep-IsFresh test l a.1)
  | inr no' ↦ rw (no', keep) (keep-IsFresh test l a.1)
]

-- the findings that no directive and no selector suppresses, reported
report-keep :
    (issues : List Issue) (d : Diagram) (cfg : Config)
    → (report issues d cfg
        ≡ reported (
            keep
              (is_left cfg (build_node_line_index d))
              (keep (λ i. not (is_suppressed i d.suppressions)) issues)))
unfolding report apply_config_selectors
report-keep issues d cfg = rw (apply_suppressions-keep issues d.suppressions) refl

-- Findings that stand in another order are reported the same.
report-perm :
    {l m : List Issue} (d : Diagram) (cfg cfg' : Config)
    → Permᴰ l m
    → All IsFresh l
    → SameSettings cfg cfg'
    → report l d cfg ≡ report m d cfg'
report-perm {l} {m} d cfg cfg' p a same =
    let free : Issue → Bool = (λ i. not (is_suppressed i d.suppressions)) in
    let left : Issue → Bool = is_left cfg (build_node_line_index d) in
    let left' : Issue → Bool = is_left cfg' (build_node_line_index d) in
    report-keep l d cfg
    ∙ (reported-perm (perm-keep left (perm-keep free p))
          (keep-IsFresh left (keep free l) (keep-IsFresh free l a))
        ∙ (ap reported (
              keep-same left left' (keep free m)
                (λ i. is_left-same cfg cfg' (build_node_line_index d) i same))
            ∙ sym (report-keep m d cfg')))

contains-IsAlike :
    (d : Diagram) {rs ss : List Rule} (k : String)
    → IsAlike d rs ss
    → contains k (known_rule_ids rs) ≡ contains k (known_rule_ids ss)
unfolding contains
contains-IsAlike d k IsAlike.nil = refl
contains-IsAlike d k (IsAlike.cons i f p rest) = ground (arith, i, contains-IsAlike d k rest)
contains-IsAlike d k IsAlike.swap = ground arith
contains-IsAlike d k (IsAlike.trans p q) = contains-IsAlike d k p ∙ contains-IsAlike d k q

run_family_same :
    (digest : String → String) (print_int : ℤ → String) (rs ss : List Rule) (d : Diagram)
    (n m : Config) (f : DiagramFamily)
    → report (collect rs d n) d n ≡ report (collect ss d m) d m
    → (run_family digest print_int rs d n f).0 ≡ (run_family digest print_int ss d m f).0
unfolding run_family
run_family_same digest print_int rs ss d n m DiagramFamily.unknown p = refl
run_family_same digest print_int rs ss d n m DiagramFamily.flowchart p =
    ap (populate_fingerprints digest print_int) p
run_family_same digest print_int rs ss d n m DiagramFamily.sequence p =
    ap (populate_fingerprints digest print_int) p
run_family_same digest print_int rs ss d n m DiagramFamily.class p =
    ap (populate_fingerprints digest print_int) p
run_family_same digest print_int rs ss d n m DiagramFamily.er p =
    ap (populate_fingerprints digest print_int) p
run_family_same digest print_int rs ss d n m DiagramFamily.state p =
    ap (populate_fingerprints digest print_int) p

run_normalized_same :
    (digest : String → String) (print_int : ℤ → String) {rs ss : List Rule} (d : Diagram)
    (r q : Result Config)
    → IsAlike d rs ss
    → All (Reads d) rs
    → ((n : Config) → All IsFresh (collect rs d n))
    → SameResult r q
    → (run_normalized digest print_int rs d r).0 ≡ (run_normalized digest print_int ss d q).0
unfolding run_normalized
run_normalized_same digest print_int d (err e) (err f) alike reads fresh same = refl
run_normalized_same digest print_int d (err e) (ok m) alike reads fresh same = absurd same
run_normalized_same digest print_int d (ok n) (err f) alike reads fresh same = absurd same
run_normalized_same digest print_int {rs} {ss} d (ok n) (ok m) alike reads fresh same =
    run_family_same digest print_int rs ss d n m (family d.type) (
      report-perm d n m (Permᴰ.trans (collect-same rs d n m reads same) (perm-collect d m alike))
        (fresh n) same)

append-IsFresh : (l m : List Issue) → All IsFresh l → All IsFresh m → All IsFresh (l ++ m)
append-IsFresh [] m a b = b
append-IsFresh (x ∷ l) m a b = (a.0, append-IsFresh l m a.1 b)

collect-IsFresh :
    (rs : List Rule) (d : Diagram) (n : Config)
    → All (λ r. All IsFresh (r.run d n)) rs
    → All IsFresh (collect rs d n)
unfolding collect
collect-IsFresh [] d n a = tt
collect-IsFresh (r ∷ rs) d n a = elim (Bool-cases (is_run (family d.type) n r)) [
  | inl yes' ↦
      rw (yes', collect)
        (append-IsFresh (r.run d n) (collect rs d n) a.0 (collect-IsFresh rs d n a.1))
  | inr no' ↦ rw (no', collect) (collect-IsFresh rs d n a.1)
]

-- Two engines of the same rules, registered in any order, report the same findings with the same
-- fingerprints in the same order on a diagram, if each rule finds the same on it in any order, with an allowed
-- severity and no fingerprint, and reads only the settings of its configuration; and if the configurations of
-- the two runs, whatever the order of their maps, give the same values to the settings of the rules, each
-- setting one value, under any names of the rules and keys, and both or neither name an unregistered rule.
pub run_with_instrumentation_stable :
    (digest : String → String) (print_int : ℤ → String) {rs ss : List Rule} (d : Diagram)
    (cfg cfg' : Config)
    → IsAlike d rs ss
    → All (Reads d) rs
    → ((n : Config) → All (λ r. All IsFresh (r.run d n)) rs)
    → IsUnambiguous (known_rule_ids rs) cfg
    → GiveSame (known_rule_ids rs) cfg cfg'
    → NamesUnknown (known_rule_ids rs) cfg ↔ NamesUnknown (known_rule_ids rs) cfg'
    → ((run_with_instrumentation digest print_int rs (some d) cfg).0
        ≡ (run_with_instrumentation digest print_int ss (some d) cfg').0)
unfolding run_with_instrumentation
run_with_instrumentation_stable digest print_int {rs} {ss} d cfg cfg' alike reads fresh one same
      unknown =
    let known =
      normalize_config_same cfg' (known_rule_ids rs) (known_rule_ids ss)
        (λ k. contains-IsAlike d k alike) in
    run_normalized_same digest print_int d (normalize_config cfg (known_rule_ids rs))
      (normalize_config cfg' (known_rule_ids ss)) alike reads
      (λ n. collect-IsFresh rs d n (fresh n))
      (subst (SameResult (normalize_config cfg (known_rule_ids rs))) known
        (normalize_config-same cfg cfg' (known_rule_ids rs) one same unknown))
