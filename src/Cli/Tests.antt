-- ===== src/Cli/Tests.antt =====
-- The exit code of cmd/merm8-cli/main.go at concrete inputs.
use merm.Prelude.{
  ◌≡◌, ◌↔◌, refl, String, true, false, some, List, [], ◌∷◌, if◌then◌else◌, str_eq, pos, All,
}
use merm.Cli.{CliOptions, InputCode, Parsed, fails, rejects, Remote, transport_fails, run}
use merm.Cli.Clean.{IsClean, run_iff}

abbrev opts : CliOptions
opts = record {
  use_stdin = true;
  url = "";
  fail_on_lint = true;
  fail_on_syntax = false;
  files = [];
}

abbrev inputs : List InputCode
inputs = record { name = "stdin"; code = "graph" } ∷ []

abbrev parse : String → Parsed
parse code =
    if str_eq code ""
    then fails "no code"
    else rejects (record { message = "unexpected end"; line = pos 1; column = pos 0 })

abbrev remote : String → String → Remote
remote name code = transport_fails "no server"

run_iff_example :
    (run parse (λ d. []) remote (λ r. true) (some opts) true (some inputs) true true ≡ 0)
    ↔ All (λ i. IsClean opts (λ d. []) (parse i.code)) inputs
run_iff_example = run_iff parse (λ d. []) remote (λ r. true) inputs opts refl (λ r. refl)
