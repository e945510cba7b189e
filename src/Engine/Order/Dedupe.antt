-- ===== src/Engine/Order/Dedupe.antt =====
-- `sortIssues` and `dedupeIssues` of internal/engine/engine.go together: the findings that the
-- engine reports.
use mathlib.Core.List.{Permᴰ}
use merm.Prelude.{
  ◌≡◌, ap, inl, inr, ◌↔◌, true, false, List, [], ◌∷◌, arith, eq_iff, Bool-cases, All, Any,
}
use merm.Prelude.Sort.{IsSorted, sort, sort-All, sort-Any, sort-perm, sort-IsSorted}
use merm.Model.{Issue}
use merm.Engine.Order.{less, sort_issues, same_issue, dedupe_after, dedupe_issues}
use merm.Engine.Order.Total.{
  IsFresh, less-IsTotal, int_ptr_eq, context_eq, int_ptr_order, context_order,
}

-- Any finding occurs in a list.
abbrev pub Has : Issue → List Issue → Type 0
Has x = Any (λ y. y ≡ x)

-- Each finding is less than all behind it, so none occurs twice.
abbrev pub IsStrict : List Issue → Type 0
IsStrict [] = Unit
IsStrict (x ∷ l) = All (λ y. less x y ≡ true) l × IsStrict l

-- what the engine reports of the findings that are left
abbrev pub reported : List Issue → List Issue
reported issues = dedupe_issues (sort_issues issues)

same_issue_eq : (x y : Issue) → IsFresh x → IsFresh y → same_issue x y ≡ true → x ≡ y
unfolding same_issue
same_issue_eq x y p q h = ground (
  arith,
  eq_iff x.rule_id y.rule_id,
  eq_iff x.severity y.severity,
  eq_iff x.message y.message,
  int_ptr_eq x.line y.line,
  int_ptr_eq x.column y.column,
  context_eq x.context y.context,
)

same_issue_refl : (x : Issue) → same_issue x x ≡ true
unfolding same_issue
same_issue_refl x = ground (
  arith,
  eq_iff x.rule_id x.rule_id,
  eq_iff x.severity x.severity,
  eq_iff x.message x.message,
  int_ptr_order.flips x.line x.line,
  int_ptr_order.flips x.column x.column,
  context_order.flips x.context x.context,
)

-- two neighbours of a sorted list are the same finding, or the first is less
less_of_different :
    (x y : Issue)
    → IsFresh x
    → IsFresh y
    → less y x ≡ false
    → same_issue x y ≡ false
    → less x y ≡ true
less_of_different x y p q h s = elim (Bool-cases (less x y)) [
  | inl yes' ↦ yes'
  | inr no' ↦
      absurd
        (ground (arith, ap (same_issue x) (less-IsTotal.total x y p q no' h), same_issue_refl x))
]

All-less_trans :
    (x y : Issue) (l : List Issue)
    → less x y ≡ true
    → All (λ z. less y z ≡ true) l
    → All (λ z. less x z ≡ true) l
All-less_trans x y [] h a = tt
All-less_trans x y (z ∷ l) h a = (less-IsTotal.trans x y z h a.0, All-less_trans x y l h a.1)

dedupe_after-IsStrict :
    (x : Issue) (l : List Issue)
    → All IsFresh (x ∷ l)
    → IsSorted less (x ∷ l)
    → IsStrict (x ∷ dedupe_after x l)
unfolding dedupe_after
dedupe_after-IsStrict x [] f s = (tt, tt)
dedupe_after-IsStrict x (y ∷ l) f s = elim (Bool-cases (same_issue x y)) [
  | inl same ↦ rw (same, dedupe_after) (dedupe_after-IsStrict x l (f.0, f.1.1) (s.0.1, s.1.1))
  | inr other ↦
      let up = less_of_different x y f.0 f.1.0 s.0.0 other in
      let rest = dedupe_after-IsStrict y l f.1 s.1 in
      rw (other, dedupe_after) ((up, All-less_trans x y (dedupe_after y l) up rest.0), rest)
]

dedupe_after-Has :
    (z x : Issue) (l : List Issue)
    → All IsFresh (x ∷ l)
    → Has z (x ∷ dedupe_after x l) ↔ Has z (x ∷ l)
unfolding dedupe_after
dedupe_after-Has z x [] f = (λ h. h, λ h. h)
dedupe_after-Has z x (y ∷ l) f = elim (Bool-cases (same_issue x y)) [
  | inl same ↦
      rw (same, dedupe_after)
        (ground (arith, dedupe_after-Has z x l (f.0, f.1.1), same_issue_eq x y f.0 f.1.0 same))
  | inr other ↦ rw (other, dedupe_after) (ground (arith, dedupe_after-Has z y l f.1))
]

dedupe_issues-IsStrict :
    (l : List Issue) → All IsFresh l → IsSorted less l → IsStrict (dedupe_issues l)
unfolding dedupe_issues
dedupe_issues-IsStrict [] f s = tt
dedupe_issues-IsStrict (x ∷ l) f s = dedupe_after-IsStrict x l f s

dedupe_issues-Has : (z : Issue) (l : List Issue) → All IsFresh l → Has z (dedupe_issues l) ↔ Has z l
unfolding dedupe_issues
dedupe_issues-Has z [] f = (λ h. h, λ h. h)
dedupe_issues-Has z (x ∷ l) f = dedupe_after-Has z x l f

-- What is reported is ordered strictly: by severity, rule, line, column, context and message, with
-- no finding twice.
pub reported-IsStrict : (l : List Issue) → All IsFresh l → IsStrict (reported l)
unfolding sort_issues
reported-IsStrict l f =
    dedupe_issues-IsStrict (sort less l) (sort-All less IsFresh less-IsTotal l f)
      (sort-IsSorted less IsFresh less-IsTotal l f)

-- Sorting and removing duplicates loses no finding and makes none up.
pub reported-Has : (z : Issue) (l : List Issue) → All IsFresh l → Has z (reported l) ↔ Has z l
unfolding sort_issues
reported-Has z l f =
    let kept = dedupe_issues-Has z (sort less l) (sort-All less IsFresh less-IsTotal l f) in
    ground (arith, kept, sort-Any less (λ y. y ≡ z) l)

-- The report does not depend on the order in which the findings were made, such as that of the
-- iteration over a Go map.
pub reported-perm : {l m : List Issue} → Permᴰ l m → All IsFresh l → reported l ≡ reported m
unfolding sort_issues
reported-perm p f = ap dedupe_issues (sort-perm less IsFresh less-IsTotal p f)
