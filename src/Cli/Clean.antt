-- ===== src/Cli/Clean.antt =====
-- Which inputs make cmd/merm8-cli/main.go exit with 0.
use merm.Prelude.{
  ℕ, String, Bool, true, false, not, ◌&&◌, ◌||◌, Option, none, some, List, [], ◌∷◌, if◌then◌else◌,
  str_eq, is_some, ◌≡◌, ◌⊎◌, ◌↔◌, inl, inr, refl, sym, ap, ◌∙◌, arith, All,
}
use merm.Model.{Diagram, Issue}
use merm.Cli.{
  CliOptions, OutputResult, RunSummary, InputCode, Parsed, fails, rejects, parses, choose_exit_code,
  is_syntax_failure, is_internal, has_any, unsupported, analyzed, analyze_local, add_result,
  add_remote, Remote, new_summary, run_loop, emitted, run,
}

-- The parser takes the input, and nothing is found in its diagram, unless the options allow it or its type is
-- unsupported; or the parser rejects it, which the options allow.
abbrev pub IsClean : CliOptions → (Diagram → List Issue) → Parsed → Type 0
IsClean opts lint (fails message) = ⊥
IsClean opts lint (rejects e) = opts.fail_on_syntax ≡ false
IsClean opts lint (parses d) =
    (is_some (unsupported (lint d)) ≡ true) ⊎ (lint d ≡ []) ⊎ (opts.fail_on_lint ≡ false)

abbrev add_local : CliOptions → (Diagram → List Issue) → String → Parsed → RunSummary → RunSummary
add_local opts lint name parsed summary = add_result opts (analyze_local lint name parsed) summary

-- the issues that count: none do where the type is unsupported
abbrev IsQuiet : CliOptions → List Issue → Type 0
IsQuiet opts issues =
    (is_some (unsupported issues) ≡ true) ⊎ (issues ≡ []) ⊎ (opts.fail_on_lint ≡ false)

abbrev code : Bool → Bool → Bool → ℕ
code transport internal found =
    if transport then 3 else if internal then 2 else if found then 1 else 0

found_iff :
    (transport internal found more : Bool)
    → (code transport internal (found || more) ≡ 0)
      ↔ ((code transport internal found ≡ 0) × (more ≡ false))
found_iff transport internal found more = (λ e. ground arith, λ (e, h). ground arith)

exit-add :
    (opts : CliOptions) (result : OutputResult) (summary : RunSummary)
    → (choose_exit_code (add_result opts result summary) ≡ 0) ↔ (
        (choose_exit_code summary ≡ 0)
        × (is_internal result.error ≡ false)
        × ((is_syntax_failure result && opts.fail_on_syntax
              || has_any result.issues && opts.fail_on_lint)
            ≡ false))
unfolding choose_exit_code add_result
exit-add opts result summary = (λ e. ground arith, λ (e, h, k). ground arith)

analyzed_iff :
    (opts : CliOptions) (name : String) (d : Diagram) (issues : List Issue)
    → (o : Option Issue) → unsupported issues ≡ o
    → let result = analyzed name d issues o in
      ((is_internal result.error ≡ false)
        × ((is_syntax_failure result && opts.fail_on_syntax
              || has_any result.issues && opts.fail_on_lint)
            ≡ false))
      ↔ IsQuiet opts issues
unfolding analyzed is_internal is_syntax_failure
analyzed_iff opts name d issues (some i) e = (λ h. inl (ap is_some e), λ h. (refl, refl))
analyzed_iff opts name d [] none e = (λ h. inr (inl refl), λ h. (refl, refl))
analyzed_iff opts name d (i ∷ issues) none e =
    (λ (h, k). inr (inr k), λ h. (refl, ground (arith, h, e)))

local_iff :
    (opts : CliOptions) (lint : Diagram → List Issue) (name : String) (parsed : Parsed)
    → let result = analyze_local lint name parsed in
      ((is_internal result.error ≡ false)
        × ((is_syntax_failure result && opts.fail_on_syntax
              || has_any result.issues && opts.fail_on_lint)
            ≡ false))
      ↔ IsClean opts lint parsed
unfolding analyze_local is_internal is_syntax_failure
local_iff opts lint name (fails message) = (λ (h, k). ground (arith, h), λ h. ground (arith, h))
local_iff opts lint name (rejects e) = (λ (h, k). ground (arith, k), λ h. (refl, ground (arith, h)))
local_iff opts lint name (parses d) = analyzed_iff opts name d (lint d) (unsupported (lint d)) refl

module _ (parse : String → Parsed) (lint : Diagram → List Issue)
    (analyze_remote : String → String → Remote) (emits : List OutputResult → Bool) where
  run_loop_iff :
      (inputs : List InputCode) (opts : CliOptions) (summary : RunSummary)
      → opts.url ≡ ""
      → (choose_exit_code (run_loop parse lint analyze_remote emits inputs opts summary) ≡ 0)
        ↔ ((choose_exit_code summary ≡ 0) × All (λ i. IsClean opts lint (parse i.code)) inputs)
  unfolding run_loop
  run_loop_iff [] opts summary e = (λ h. (h, tt), λ (h, k). h)
  run_loop_iff (i ∷ inputs) opts summary e =
      let next = add_local opts lint i.name (parse i.code) summary in
      let step =
        ap
          (λ b. choose_exit_code (
            run_loop parse lint analyze_remote emits inputs opts (
              if not b
              then add_remote opts i.name (analyze_remote i.name i.code) summary
              else next)))
          (ap (λ u. str_eq u "") e) in
      let (to, from) = run_loop_iff inputs opts next e in
      let (split, join) = exit-add opts (analyze_local lint i.name (parse i.code)) summary in
      let (clean, unclean) = local_iff opts lint i.name (parse i.code) in
      (
        λ h.
            let (now, rest) = to (sym step ∙ h) in
            let (before, a, b) = split now in (before, (clean (a, b), rest)),
        λ (before, (now, rest)).
            let (a, b) = unclean now in step ∙ from (join (before, a, b), rest),
      )

  -- A run without a server whose options, configuration and inputs are read, whose parser is made, whose
  -- configuration is valid and whose results can be printed exits with 0 exactly when every input is clean:
  -- the parser takes it, and its diagram has no finding, or an unsupported type, or findings are not to fail
  -- the run; or the parser rejects it, and syntax errors are not to fail the run.
  pub run_iff :
      (inputs : List InputCode) (opts : CliOptions)
      → opts.url ≡ ""
      → ((results : List OutputResult) → emits results ≡ true)
      → (run parse lint analyze_remote emits (some opts) true (some inputs) true true ≡ 0)
        ↔ All (λ i. IsClean opts lint (parse i.code)) inputs
  unfolding run emitted choose_exit_code
  run_iff inputs opts e printed =
      let summary = run_loop parse lint analyze_remote emits inputs opts new_summary in
      let same =
        ap
          (λ u. if str_eq u "" && false then 2 else emitted parse lint analyze_remote emits summary)
          e
        ∙ ap (λ b. if b then choose_exit_code summary else 2) (printed summary.results) in
      let (to, from) = run_loop_iff inputs opts new_summary e in
      (λ h. let (zero, clean) = to (sym same ∙ h) in clean, λ h. same ∙ from (refl, h))
