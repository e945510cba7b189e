-- ===== src/Engine/Order/Total.antt =====
-- The order that `sortIssues` sorts by is lexicographic, and total on the findings as the rules
-- make them.
use Prim.Native.Nat.{Ordering, compare as compare_ℕ}
use Prim.Native.String.{compare, then as and_then}
use text.Mathlib.TextEquality.{path_by_compare}
use merm.Prelude.{◌≡◌, refl, sym, ◌⊎◌, ap, ◌∙◌, String, Option, none, some, arith, ℤ, compare_order}
use merm.Prelude.Compare.{IsOrdering, flip, ℕ_order, on-IsOrdering, then-IsOrdering}
use merm.Prelude.Sort.{IsTotal}
use merm.Model.{Issue, IssueContext}
use merm.Engine.Order.{severity_priority, compare_int_ptr, compare_issue_context, is_negative, less}

int_ptr_flips : (x y : Option ℤ) → compare_int_ptr y x ≡ flip (compare_int_ptr x y)
unfolding compare_int_ptr
int_ptr_flips none none = refl
int_ptr_flips none (some y) = refl
int_ptr_flips (some x) none = refl
int_ptr_flips (some x) (some y) = ground arith

int_ptr_lt_trans :
    (x y z : Option ℤ)
    → compare_int_ptr x y ≡ Ordering.lt
    → compare_int_ptr y z ≡ Ordering.lt
    → compare_int_ptr x z ≡ Ordering.lt
unfolding compare_int_ptr
int_ptr_lt_trans none y z h k = ground arith
int_ptr_lt_trans (some x) none z h k = ground arith
int_ptr_lt_trans (some x) (some y) none h k = refl
int_ptr_lt_trans (some x) (some y) (some z) h k = ground arith

pub int_ptr_eq : (x y : Option ℤ) → compare_int_ptr x y ≡ Ordering.eq → x ≡ y
unfolding compare_int_ptr
int_ptr_eq none none h = refl
int_ptr_eq none (some y) h = cc
int_ptr_eq (some x) none h = cc
int_ptr_eq (some x) (some y) h = ground arith

pub int_ptr_order : IsOrdering compare_int_ptr
int_ptr_order = record {
  flips = int_ptr_flips;
  lt_trans = int_ptr_lt_trans;
  eq_left = λ x y z h. ap (λ u. compare_int_ptr u z) (int_ptr_eq x y h);
}

by_context : IssueContext → IssueContext → Ordering
by_context a b =
    and_then (compare a.subgraph_id b.subgraph_id) (compare a.subgraph_label b.subgraph_label)

by_context_order : IsOrdering by_context
unfolding by_context
by_context_order =
    then-IsOrdering (on-IsOrdering (λ c. c.subgraph_id) compare_order)
      (on-IsOrdering (λ c. c.subgraph_label) compare_order)

context_some : (a b : IssueContext) → compare_issue_context (some a) (some b) ≡ by_context a b
unfolding compare_issue_context by_context
context_some a b = ground (
  arith,
  compare_order.flips a.subgraph_id b.subgraph_id,
  compare_order.flips a.subgraph_label b.subgraph_label,
)

context_flips :
    (x y : Option IssueContext) → compare_issue_context y x ≡ flip (compare_issue_context x y)
unfolding compare_issue_context
context_flips none none = refl
context_flips none (some y) = refl
context_flips (some x) none = refl
context_flips (some x) (some y) =
    context_some y x ∙ (by_context_order.flips x y ∙ ap flip (sym (context_some x y)))

context_lt_trans :
    (x y z : Option IssueContext)
    → compare_issue_context x y ≡ Ordering.lt
    → compare_issue_context y z ≡ Ordering.lt
    → compare_issue_context x z ≡ Ordering.lt
context_lt_trans none none z h k = unfold compare_issue_context in cc
context_lt_trans none (some y) z h k = unfold compare_issue_context in cc
context_lt_trans (some x) none none h k = unfold compare_issue_context in cc
context_lt_trans (some x) none (some z) h k = unfold compare_issue_context in cc
context_lt_trans (some x) (some y) none h k = unfold compare_issue_context in refl
context_lt_trans (some x) (some y) (some z) h k =
    context_some x z
    ∙ by_context_order.lt_trans x y z (sym (context_some x y) ∙ h) (sym (context_some y z) ∙ k)

pub context_eq : (x y : Option IssueContext) → compare_issue_context x y ≡ Ordering.eq → x ≡ y
context_eq none none h = refl
context_eq none (some y) h = unfold compare_issue_context in cc
context_eq (some x) none h = unfold compare_issue_context in cc
context_eq (some x) (some y) h =
    let k : by_context x y ≡ Ordering.eq = sym (context_some x y) ∙ h in
    unfold by_context in
    ground (
      arith,
      k,
      path_by_compare x.subgraph_id y.subgraph_id,
      path_by_compare x.subgraph_label y.subgraph_label,
    )

pub context_order : IsOrdering compare_issue_context
context_order = record {
  flips = context_flips;
  lt_trans = context_lt_trans;
  eq_left = λ x y z h. ap (λ u. compare_issue_context u z) (context_eq x y h);
}

-- the comparison of two findings, field after field
abbrev pub by_issue : Issue → Issue → Ordering
by_issue x y = and_then (compare_ℕ (severity_priority x.severity) (severity_priority y.severity)) (
    and_then (compare x.rule_id y.rule_id) (
      and_then (compare_int_ptr x.line y.line) (
        and_then (compare_int_ptr x.column y.column)
          (and_then (compare_issue_context x.context y.context) (compare x.message y.message)))))

pub by_issue_order : IsOrdering by_issue
by_issue_order =
    then-IsOrdering (on-IsOrdering (λ (x : Issue). severity_priority x.severity) ℕ_order) (
      then-IsOrdering (on-IsOrdering (λ (x : Issue). x.rule_id) compare_order) (
        then-IsOrdering (on-IsOrdering (λ (x : Issue). x.line) int_ptr_order) (
          then-IsOrdering (on-IsOrdering (λ (x : Issue). x.column) int_ptr_order) (
            then-IsOrdering (on-IsOrdering (λ (x : Issue). x.context) context_order)
              (on-IsOrdering (λ (x : Issue). x.message) compare_order)))))

-- `sortIssues` puts a finding before another exactly if it is less at the first field, in the
-- order severity, rule, line, column, context, message, at which they differ.
pub less-by_issue : (x y : Issue) → less x y ≡ is_negative (by_issue x y)
unfolding less
less-by_issue x y = ground arith

-- The findings as the rules make them: a severity that the configuration allows, and no
-- fingerprint yet.
pub record IsFresh (x : Issue) : Type 0 where
  pub severity : (x.severity ≡ "error") ⊎ (x.severity ≡ "warning") ⊎ (x.severity ≡ "info")
  pub fingerprint : x.fingerprint ≡ ""

priority_constants :
    (severity_priority "error" ≡ 0)
    × (severity_priority "warning" ≡ 1)
    × (severity_priority "info" ≡ 2)
unfolding severity_priority
priority_constants = (refl, refl, refl)

priority_eq :
    (s t : String)
    → (s ≡ "error") ⊎ (s ≡ "warning") ⊎ (s ≡ "info")
    → (t ≡ "error") ⊎ (t ≡ "warning") ⊎ (t ≡ "info")
    → severity_priority s ≡ severity_priority t
    → s ≡ t
priority_eq s t h k e = ground (arith, priority_constants)

less_total : (x y : Issue) → IsFresh x → IsFresh y → by_issue x y ≡ Ordering.eq → x ≡ y
less_total x y p q h = ground (
  arith,
  priority_eq x.severity y.severity p.severity q.severity,
  path_by_compare x.rule_id y.rule_id,
  path_by_compare x.message y.message,
  int_ptr_eq x.line y.line,
  int_ptr_eq x.column y.column,
  context_eq x.context y.context,
)

-- On such findings the order is total: two that neither is less than the other are equal.
pub less-IsTotal : IsTotal less IsFresh
less-IsTotal = record {
  irrefl = λ x. ground (arith, less-by_issue x x, by_issue_order.flips x x);
  trans = λ x y z h k. ground (
    arith,
    less-by_issue x y,
    less-by_issue y z,
    less-by_issue x z,
    by_issue_order.lt_trans x y z,
  );
  total = λ x y p q h k.
      ground
        (arith, less-by_issue x y, less-by_issue y x, by_issue_order.flips x y, less_total x y p q);
}
