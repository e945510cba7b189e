-- ===== src/Engine/Run/Registered.antt =====
-- internal/engine/engine.go: the rules that an engine accepts.
use mathlib.Core.List.{append-nil, append_assoc}
use merm.Prelude.{
  Bool, not, ◌&&◌, ◌++◌, if◌then◌else◌, none, sym, ap, ◌≡◌, ◌↔◌, refl, String, true, false, some,
  List, [], ◌∷◌, map, arith, eq_iff, contains, All,
}
use merm.Rules.RuleId.{canonical_rule_registration_id}
use merm.Engine.Run.{Rule, is_registrable, register, new_with_rules}

-- No text of a list occurs twice.
abbrev pub IsUnique : List String → Type 0
IsUnique [] = Unit
IsUnique (k ∷ ks) = (contains k ks ≡ false) × IsUnique ks

abbrev pub canonical_ids : List Rule → List String
canonical_ids rules = map (λ r. canonical_rule_registration_id r.id) rules

-- What an engine's rules are: each id is valid, and no two canonical ids are the same.
pub record IsEngine (rules : List Rule) : Type 0 where
  pub registrable : All (λ r. is_registrable r.id ≡ true) rules
  pub unique : IsUnique (canonical_ids rules)

-- none of the ids has been seen
abbrev Unseen : List String → List String → Type 0
Unseen seen = All (λ k. contains k seen ≡ false)

Unseen-cons :
    (k : String) (seen ks : List String)
    → Unseen (k ∷ seen) ks
    → (contains k ks ≡ false) × Unseen seen ks
unfolding contains
Unseen-cons k seen [] h = (refl, tt)
Unseen-cons k seen (j ∷ ks) h = ground (arith, Unseen-cons k seen ks h.1, eq_iff j k, eq_iff k j)

cons-Unseen :
    (k : String) (seen ks : List String)
    → contains k ks ≡ false
    → Unseen seen ks
    → Unseen (k ∷ seen) ks
unfolding contains
cons-Unseen k seen [] n h = tt
cons-Unseen k seen (j ∷ ks) n h =
    ground (arith, cons-Unseen k seen ks (ground arith) h.1, eq_iff j k, eq_iff k j)

-- whether the loop comes to its end
accepts : List Rule → List String → Bool
accepts [] seen = true
accepts (r ∷ rules) seen =
    let rest = accepts rules (canonical_rule_registration_id r.id ∷ seen) in
    is_registrable r.id && not (contains (canonical_rule_registration_id r.id) seen) && rest

-- the loop appends every rule, or gives up
register-accepts :
    (rules : List Rule) (seen : List String) (appended : List Rule)
    → register rules seen appended ≡ (if accepts rules seen then some (appended ++ rules) else none)
unfolding register accepts
register-accepts [] seen appended = ap some (sym (append-nil appended))
register-accepts (r ∷ rules) seen appended =
    let k = canonical_rule_registration_id r.id in
    ground (
      arith,
      register-accepts rules (k ∷ seen) (appended ++ (r ∷ [])),
      append_assoc appended (r ∷ []) rules,
    )

accepts_sound :
    (rules : List Rule) (seen : List String)
    → accepts rules seen ≡ true
    → All (λ r. is_registrable r.id ≡ true) rules
      × IsUnique (canonical_ids rules)
      × Unseen seen (canonical_ids rules)
unfolding accepts
accepts_sound [] seen h = (tt, tt, tt)
accepts_sound (r ∷ rules) seen h =
    let k = canonical_rule_registration_id r.id in
    let (all', unique', later) = accepts_sound rules (k ∷ seen) (ground arith) in
    let unseen = Unseen-cons k seen (canonical_ids rules) later in
    ((ground arith, all'), (unseen.0, unique'), (ground arith, unseen.1))

accepts_complete :
    (rules : List Rule) (seen : List String)
    → All (λ r. is_registrable r.id ≡ true) rules
    → IsUnique (canonical_ids rules)
    → Unseen seen (canonical_ids rules)
    → accepts rules seen ≡ true
unfolding accepts
accepts_complete [] seen a u n = refl
accepts_complete (r ∷ rules) seen a u n =
    let k = canonical_rule_registration_id r.id in
    let rest =
      accepts_complete rules (k ∷ seen) a.1 u.1
        (cons-Unseen k seen (canonical_ids rules) u.0 n.1) in
    ground (arith, rest)

Unseen-nil : (ks : List String) → Unseen [] ks
unfolding contains
Unseen-nil [] = tt
Unseen-nil (k ∷ ks) = (refl, Unseen-nil ks)

-- Rules are accepted exactly if their ids are valid and no two canonical ids are the same; an engine
-- keeps them all in their order.
pub new_with_rules_iff :
    (rules e : List Rule) → (new_with_rules rules ≡ some e) ↔ ((e ≡ rules) × IsEngine rules)
unfolding new_with_rules
new_with_rules_iff rules e =
    let all = register-accepts rules [] [] in
    (
      λ h. (
        ground (arith, all, h),
        let (all', unique', unseen) = accepts_sound rules [] (ground (arith, all, h)) in
            record { registrable = all'; unique = unique' },
      ),
      λ h.
          let accepted' =
            accepts_complete rules [] h.1.registrable h.1.unique
              (Unseen-nil (canonical_ids rules)) in
          ground (arith, all, accepted', h.0),
    )
