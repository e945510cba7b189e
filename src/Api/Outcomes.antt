-- ===== src/Api/Outcomes.antt =====
-- internal/api/handler.go: the counters of outcomes, and the metrics of the rules of a request. A counter is
-- a number of 64 bits, and an addition to it is one step.
use merm.Prelude.{
  ℕ, ◌+◌, ◌%◌, ◌^◌, String, true, false, List, [], ◌∷◌, if◌then◌else◌, str_eq, str_ltb,
}
use merm.Prelude.Sort.{sort}
use merm.Engine.Run.{RuleMetrics}

-- `analyzeOutcomeCounters`, and `analyzeOutcomeSnapshot`
pub record AnalyzeOutcomeCounters : Type 0 where
  pub valid_success : ℕ
  pub syntax_error : ℕ
  pub other_outcome : ℕ
  pub parser_timeout : ℕ
  pub parser_subprocess : ℕ
  pub parser_decode : ℕ
  pub parser_contract : ℕ
  pub parser_internal_error : ℕ

-- `atomic.Uint64.Add`
unfoldable pub add_one : ℕ → ℕ
add_one n = (n + 1) % 2 ^ 64

-- `Increment`
unfoldable pub increment : String → AnalyzeOutcomeCounters → AnalyzeOutcomeCounters
increment outcome c =
    if str_eq outcome "lint_success"
    then record c { valid_success = add_one c.valid_success }
    else if str_eq outcome "syntax_error"
    then record c { syntax_error = add_one c.syntax_error }
    else if str_eq outcome "parser_timeout"
    then record c { parser_timeout = add_one c.parser_timeout }
    else if str_eq outcome "parser_subprocess_error"
    then record c { parser_subprocess = add_one c.parser_subprocess }
    else if str_eq outcome "parser_decode_error"
    then record c { parser_decode = add_one c.parser_decode }
    else if str_eq outcome "parser_contract_violation"
    then record c { parser_contract = add_one c.parser_contract }
    else if str_eq outcome "internal_error"
    then record c { parser_internal_error = add_one c.parser_internal_error }
    else if str_eq outcome "other"
    then record c { other_outcome = add_one c.other_outcome }
    else c

-- `RecordRuleMetrics`, on the map of the metrics without durations
unfoldable pub record_rule_metrics : RuleMetrics → List RuleMetrics → List RuleMetrics
record_rule_metrics m [] = m ∷ []
record_rule_metrics m (a ∷ rest) =
    let others = record_rule_metrics m rest in
    elim (str_eq a.rule_id m.rule_id) [
      | true ↦
          record a {
            executions = a.executions + m.executions;
            issues_emitted = a.issues_emitted + m.issues_emitted;
          }
          ∷ rest
      | false ↦ a ∷ others
    ]

-- `Snapshot` of the metrics; `order` gives the entries of the map in any order
unfoldable pub snapshot :
    (List RuleMetrics → List RuleMetrics) → List RuleMetrics → List RuleMetrics
snapshot order by_rule = sort (λ a b. str_ltb a.rule_id b.rule_id) (order by_rule)
