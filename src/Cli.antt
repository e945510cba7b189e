-- ===== src/Cli.antt =====
-- cmd/merm8-cli/main.go: what a run makes of its inputs, and its exit code. Reading flags, files and the
-- standard input, the parser, the engine's `Run`, and the request to a server are parameters.
pub mod Clean
mod Tests
use merm.Prelude.{
  ℕ, String, Bool, true, false, not, ◌&&◌, ◌||◌, Option, none, some, List, [], ◌∷◌, ◌++◌,
  if◌then◌else◌, str_eq, is_some, ℤ,
}
use merm.Model.{Diagram, DiagramType, Issue}

-- `cliOptions`, the fields that a run decides on
pub record CliOptions : Type 0 where
  pub use_stdin : Bool
  pub url : String
  pub fail_on_lint : Bool
  pub fail_on_syntax : Bool
  pub files : List String

-- `parser.SyntaxError`
pub record SyntaxError : Type 0 where
  pub message : String
  pub line : ℤ
  pub column : ℤ

-- `analyzeError`, with its code and message
pub record AnalyzeError : Type 0 where
  pub code : String
  pub message : String

pub record OutputResult : Type 0 where
  pub input : String
  pub valid : Bool
  pub diagram_type : DiagramType
  pub supported : Bool
  pub syntax_error : Option SyntaxError
  pub issues : List Issue
  pub error : Option AnalyzeError

pub record RunSummary : Type 0 where
  pub results : List OutputResult
  pub has_findings : Bool
  pub has_internal_failure : Bool
  pub has_transport : Bool

pub record InputCode : Type 0 where
  pub name : String
  pub code : String

-- what `Parse` returns
pub data Parsed : Type 0 where
  fails : String → Parsed
  rejects : SyntaxError → Parsed
  parses : Diagram → Parsed

-- `chooseExitCode`
unfoldable pub choose_exit_code : RunSummary → ℕ
choose_exit_code summary =
    if summary.has_transport
    then 3
    else if summary.has_internal_failure
    then 2
    else if summary.has_findings
    then 1
    else 0

-- `isSyntaxFailure`
unfoldable pub is_syntax_failure : OutputResult → Bool
is_syntax_failure result =
    is_some result.syntax_error || (not result.valid && not (is_some result.error))

-- `err != nil` of `result.Error`, with a code that counts as an internal failure
unfoldable pub is_internal : Option AnalyzeError → Bool
is_internal none = false
is_internal (some e) =
    not (str_eq e.code "unsupported_diagram_type") && not (str_eq e.code "transport_error")

abbrev pub has_any : List Issue → Bool
has_any [] = false
has_any (i ∷ issues) = true

-- one finding, of the id `unsupported-diagram-type`
unfoldable pub unsupported : List Issue → Option Issue
unsupported [] = none
unsupported (i ∷ []) = if str_eq i.rule_id "unsupported-diagram-type" then some i else none
unsupported (i ∷ j ∷ issues) = none

-- `collectInputs`, with `read_file` for the files
abbrev prepend : InputCode → Option (List InputCode) → Option (List InputCode)
prepend i none = none
prepend i (some inputs) = some (i ∷ inputs)

-- the input of that name, if it can be read, in front of the others
abbrev read : String → Option String → Option (List InputCode) → Option (List InputCode)
read name none rest = none
read name (some text) rest = prepend (record { name = name; code = text }) rest

unfoldable pub read_files : (String → Option String) → List String → Option (List InputCode)
read_files read_file [] = some []
read_files read_file (path ∷ paths) = read path (read_file path) (read_files read_file paths)

unfoldable pub collect_inputs :
    Option String → (String → Option String) → CliOptions → Option (List InputCode)
collect_inputs stdin read_file opts =
    if opts.use_stdin
    then read "stdin" stdin (read_files read_file opts.files)
    else read_files read_file opts.files

abbrev failed : String → String → String → OutputResult
failed name code message = record {
  input = name;
  valid = false;
  diagram_type = "";
  supported = false;
  syntax_error = none;
  issues = [];
  error = some (record { code = code; message = message });
}

-- the end of `analyzeLocal`
unfoldable pub analyzed : String → Diagram → List Issue → Option Issue → OutputResult
analyzed name diagram issues none = record {
  input = name;
  valid = true;
  diagram_type = diagram.type;
  supported = true;
  syntax_error = none;
  issues = issues;
  error = none;
}
analyzed name diagram issues (some i) = record (failed name "unsupported_diagram_type" i.message) {
  diagram_type = diagram.type;
}

-- `analyzeLocal`, on what the parser returns
unfoldable pub analyze_local : (Diagram → List Issue) → String → Parsed → OutputResult
analyze_local lint name (fails message) = failed name "internal_error" message
analyze_local lint name (rejects e) = record {
  input = name;
  valid = false;
  diagram_type = "";
  supported = false;
  syntax_error = some e;
  issues = [];
  error = none;
}
analyze_local lint name (parses diagram) =
    analyzed name diagram (lint diagram) (unsupported (lint diagram))

-- what `run` does with a result
unfoldable pub add_result : CliOptions → OutputResult → RunSummary → RunSummary
add_result opts result summary = record {
  results = summary.results ++ (result ∷ []);
  has_findings =
      summary.has_findings
      || (is_syntax_failure result && opts.fail_on_syntax)
      || (has_any result.issues && opts.fail_on_lint);
  has_internal_failure = summary.has_internal_failure || is_internal result.error;
  has_transport = summary.has_transport;
}

-- the result of `analyzeRemote`, or the message of its error
pub data Remote : Type 0 where
  answers : OutputResult → Remote
  transport_fails : String → Remote

unfoldable pub add_remote : CliOptions → String → Remote → RunSummary → RunSummary
add_remote opts name (answers result) summary = add_result opts result summary
add_remote opts name (transport_fails message) summary =
    add_result opts (failed name "transport_error" message)
      (record summary { has_transport = true })

abbrev pub new_summary : RunSummary
new_summary = record {
  results = [];
  has_findings = false;
  has_internal_failure = false;
  has_transport = false;
}

module _ (parse : String → Parsed) (lint : Diagram → List Issue)
    (analyze_remote : String → String → Remote) (emits : List OutputResult → Bool) where
  -- the loop of `run`
  unfoldable pub run_loop : List InputCode → CliOptions → RunSummary → RunSummary
  run_loop [] opts summary = summary
  run_loop (i ∷ inputs) opts summary = run_loop inputs opts (
      if not (str_eq opts.url "")
      then add_remote opts i.name (analyze_remote i.name i.code) summary
      else add_result opts (analyze_local lint i.name (parse i.code)) summary)

  -- the end of `run`
  unfoldable pub emitted : RunSummary → ℕ
  emitted summary = if emits summary.results then choose_exit_code summary else 2

  -- `run`, on the options, unless they are not read, whether the configuration is read, the inputs, unless
  -- they are not read, whether the parser is made, and whether the configuration is valid
  unfoldable pub run : Option CliOptions → Bool → Option (List InputCode) → Bool → Bool → ℕ
  run none config_read inputs parser_made config_valid = 2
  run (some opts) config_read none parser_made config_valid = 2
  run (some opts) config_read (some inputs) parser_made config_valid =
      if not config_read
      then 2
      else if str_eq opts.url "" && not (parser_made && config_valid)
      then 2
      else emitted (run_loop inputs opts new_summary)
