-- ===== src/Api/Headers.antt =====
-- internal/api/middleware.go: decisions on the headers of a request and a response. A header with several
-- values is the list of them. `strconv.ParseFloat` is the parameter `parse_float`, which tells whether a
-- number is at most zero; `mime.ParseMediaType` is the parameter `parse_media_type`.
pub mod Vary
use merm.Prelude.{
  ℕ, String, Bool, true, false, not, ◌&&◌, ◌||◌, Option, none, some, List, [], ◌∷◌, ◌++◌,
  if◌then◌else◌, str_eq, contains,
}
use merm.Strings.{trim_space, to_lower, equal_fold, split, cut, has_char}

-- `isAnalyzeJSONPath`
unfoldable pub is_analyze_json_path : String → Bool
is_analyze_json_path path =
    str_eq path "/analyze" || str_eq path "/v1/analyze" || str_eq path "/v1/analyse"

-- `isAnalyzePath`
unfoldable pub is_analyze_path : String → Bool
is_analyze_path path =
    is_analyze_json_path path || str_eq path "/analyze/sarif" || str_eq path "/v1/analyze/sarif"

-- `isProtectedAnalyzePath`
unfoldable pub is_protected_analyze_path : String → Bool
is_protected_analyze_path path =
    is_analyze_json_path path
    || str_eq path "/analyze/raw"
    || str_eq path "/v1/analyze/raw"
    || str_eq path "/v1/analyse/raw"
    || str_eq path "/analyze/sarif"
    || str_eq path "/v1/analyze/sarif"

-- the loop of `hasZeroOrNegativeQValue`
unfoldable pub zero_q_in : (String → Option Bool) → List String → Bool
zero_q_in parse_float [] = false
zero_q_in parse_float (param ∷ params) = elim (cut 61 (trim_space param)) [
  | none ↦ zero_q_in parse_float params
  | some (key, value) ↦ elim (equal_fold (trim_space key) "q") [
    | false ↦ zero_q_in parse_float params
    | true ↦ elim (parse_float (trim_space value)) [
      | none ↦ false
      | some at_most_zero ↦ at_most_zero
    ]
  ]
]

-- `hasZeroOrNegativeQValue`
unfoldable pub has_zero_or_negative_q_value : (String → Option Bool) → String → Bool
has_zero_or_negative_q_value parse_float encoding = elim (cut 59 encoding) [
  | none ↦ false
  | some (name, params) ↦ zero_q_in parse_float (split 59 params)
]

-- the name of an encoding, without its parameters
unfoldable pub encoding_name : String → String
encoding_name encoding = elim (cut 59 encoding) [
  | none ↦ encoding
  | some (name, params) ↦ trim_space name
]

-- the loop of `acceptsGzipEncoding`
unfoldable pub accepts_gzip_in : (String → Option Bool) → List String → Bool
accepts_gzip_in parse_float [] = false
accepts_gzip_in parse_float (token ∷ tokens) =
    let encoding = to_lower (trim_space token) in
    let rest = accepts_gzip_in parse_float tokens in
    let name = encoding_name encoding in
    if str_eq encoding ""
    then rest
    else (if not (str_eq name "gzip") && not (str_eq name "*")
        then rest
        else if has_zero_or_negative_q_value parse_float encoding
        then rest
        else true)

-- `acceptsGzipEncoding`
unfoldable pub accepts_gzip_encoding : (String → Option Bool) → String → Bool
accepts_gzip_encoding parse_float accept_encoding =
    accepts_gzip_in parse_float (split 44 accept_encoding)

-- `isCompressibleResponseType`
unfoldable pub is_compressible_response_type : (String → Option String) → String → Bool
is_compressible_response_type parse_media_type content_type =
    let media_type : String = elim (parse_media_type content_type) [
      | none ↦ trim_space (to_lower content_type)
      | some media ↦ media
    ] in
    str_eq (to_lower media_type) "application/json"
    || str_eq (to_lower media_type) "application/sarif+json"

-- a token of one value of the header is the one looked for
unfoldable pub has_token : String → List String → Bool
has_token value [] = false
has_token value (token ∷ tokens) = equal_fold (trim_space token) value || has_token value tokens

-- the loops of `appendVaryHeader`
unfoldable pub varies_by : String → List String → Bool
varies_by value [] = false
varies_by value (entry ∷ entries) = has_token value (split 44 entry) || varies_by value entries

-- `appendVaryHeader`, on the values of the header
unfoldable pub append_vary_header : String → List String → List String
append_vary_header value vary =
    if str_eq value "" then vary else if varies_by value vary then vary else vary ++ (value ∷ [])

-- `AnalyzeBearerAuthMiddleware`: a request that it does not refuse
unfoldable pub is_authorized : String → String → String → String → Bool
is_authorized configured method path authorization =
    let token = trim_space configured in
    let checked = str_eq method "POST" && is_protected_analyze_path path in
    let provided : Bool = elim (cut 32 (trim_space authorization)) [
      | none ↦ false
      | some (scheme, provided_token) ↦
          equal_fold scheme "Bearer" && str_eq (trim_space provided_token) token
    ] in
    if str_eq token "" then true else if checked then provided else true

-- the version that `VersionNegotiationMiddleware` takes
unfoldable pub negotiate : String → String
negotiate header =
    if not (str_eq (trim_space header) "") && contains (trim_space header) ("1.0" ∷ [])
    then trim_space header
    else "1.0"

-- `APIVersionFromContext`, with the context's value
unfoldable pub api_version_from_context : Option String → String
api_version_from_context none = "1.0"
api_version_from_context (some version) = if str_eq version "" then "1.0" else version
