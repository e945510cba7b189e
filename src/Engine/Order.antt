-- ===== src/Engine/Order.antt =====
-- internal/engine/engine.go: the order of the findings. The integers -1, 0 and 1 that the
-- comparisons return are `lt`, `eq` and `gt`.
pub mod Total
pub mod Dedupe
use Prim.Native.Nat.{Ordering, compare as compare_ℕ}
use Prim.Native.String.{compare, then}
use merm.Prelude.{
  ℕ, ◌≡◌, refl, ◌⊎◌, inl, inr, ap, String, Bool, true, false, not, ◌&&◌, ◌||◌, Option, none, some,
  List, [], ◌∷◌, arith, if◌then◌else◌, str_eq, eq_iff, str_ltb, ℤ, ltb, ◌==◌, ltb_ℤ,
}
use merm.Prelude.Sort.{sort}
use merm.Model.{Issue, IssueContext}

-- `severityPriority`
unfoldable pub severity_priority : String → ℕ
severity_priority s =
    if str_eq s "error"
    then 0
    else if str_eq s "warning" || str_eq s "warn"
    then 1
    else if str_eq s "info"
    then 2
    else 3

-- `compareIntPtr`
unfoldable pub compare_int_ptr : Option ℤ → Option ℤ → Ordering
compare_int_ptr none none = Ordering.eq
compare_int_ptr none (some b) = Ordering.gt
compare_int_ptr (some a) none = Ordering.lt
compare_int_ptr (some a) (some b) =
    if ltb_ℤ a b then Ordering.lt else if ltb_ℤ b a then Ordering.gt else Ordering.eq

-- `compareIssueContext`
unfoldable pub compare_issue_context : Option IssueContext → Option IssueContext → Ordering
compare_issue_context none none = Ordering.eq
compare_issue_context none (some b) = Ordering.gt
compare_issue_context (some a) none = Ordering.lt
compare_issue_context (some a) (some b) =
    if str_ltb a.subgraph_id b.subgraph_id
    then Ordering.lt
    else if str_ltb b.subgraph_id a.subgraph_id
    then Ordering.gt
    else if str_ltb a.subgraph_label b.subgraph_label
    then Ordering.lt
    else if str_ltb b.subgraph_label a.subgraph_label
    then Ordering.gt
    else Ordering.eq

abbrev pub is_zero : Ordering → Bool
is_zero o = elim o [ Ordering.eq ↦ true | _ ↦ false ]

abbrev pub is_negative : Ordering → Bool
is_negative o = elim o [ Ordering.lt ↦ true | _ ↦ false ]

-- the function that `sortIssues` sorts by
unfoldable pub less : Issue → Issue → Bool
less left right =
    if not (severity_priority left.severity == severity_priority right.severity)
    then ltb (severity_priority left.severity) (severity_priority right.severity)
    else if not (str_eq left.rule_id right.rule_id)
    then str_ltb left.rule_id right.rule_id
    else if not (is_zero (compare_int_ptr left.line right.line))
    then is_negative (compare_int_ptr left.line right.line)
    else if not (is_zero (compare_int_ptr left.column right.column))
    then is_negative (compare_int_ptr left.column right.column)
    else if not (is_zero (compare_issue_context left.context right.context))
    then is_negative (compare_issue_context left.context right.context)
    else str_ltb left.message right.message

-- `sortIssues`
unfoldable pub sort_issues : List Issue → List Issue
sort_issues issues = sort less issues

-- `sameIssue`
unfoldable pub same_issue : Issue → Issue → Bool
same_issue left right =
    str_eq left.rule_id right.rule_id
    && str_eq left.severity right.severity
    && str_eq left.message right.message
    && is_zero (compare_int_ptr left.line right.line)
    && is_zero (compare_int_ptr left.column right.column)
    && is_zero (compare_issue_context left.context right.context)

-- the loop of `dedupeIssues`, behind the finding that was kept last
unfoldable pub dedupe_after : Issue → List Issue → List Issue
dedupe_after last [] = []
dedupe_after last (issue ∷ rest) = elim (same_issue last issue) [
  | true ↦ dedupe_after last rest
  | false ↦ issue ∷ dedupe_after issue rest
]

-- `dedupeIssues`
unfoldable pub dedupe_issues : List Issue → List Issue
dedupe_issues [] = []
dedupe_issues (issue ∷ rest) = issue ∷ dedupe_after issue rest
