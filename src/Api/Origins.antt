-- ===== src/Api/Origins.antt =====
-- internal/api/middleware.go: which origins CORSMiddleware allows. The keys of the map `exact` are a list.
-- An origin is a text of valid UTF-8, on which the places of bytes that the code cuts at are places of
-- characters.
pub mod Texts
pub mod Matches
pub mod Allowed
use Prim.Native.String
use merm.Prelude.{
  ℕ, zero, suc, ◌+◌, ◌-◌, String, Bool, true, false, not, ◌&&◌, ◌||◌, Option, none, some, List, [],
  ◌∷◌, ◌++◌, if◌then◌else◌, ◌==◌, leb, str_eq, contains, length,
}
use merm.Strings.{trim_space, split, strip_prefix, has_suffix, count_char}

-- `wildcardOriginPattern`
pub record WildcardOriginPattern : Type 0 where
  pub prefix : String
  pub suffix : String

-- `corsOriginMatcher`
pub record CorsOriginMatcher : Type 0 where
  pub exact : List String
  pub wildcards : List WildcardOriginPattern

-- `parseWildcardOrigin`
unfoldable pub parse_wildcard_origin : String → Option WildcardOriginPattern
parse_wildcard_origin origin =
    if not (count_char 42 origin == 1) then none else (elim (split 42 origin) [
      | [] ↦ none
      | prefix ∷ rest ↦ elim rest [
        | [] ↦ none
        | suffix ∷ more ↦ elim more [
          | x ∷ xs ↦ none
          | [] ↦
              if str_eq prefix "" || str_eq suffix ""
              then none
              else some (record { prefix = prefix; suffix = suffix })
        ]
      ]
    ])

-- the loop of `newCORSOriginMatcher`
unfoldable pub add_origins : List String → CorsOriginMatcher → CorsOriginMatcher
add_origins [] matcher = matcher
add_origins (part ∷ parts) matcher =
    let origin = trim_space part in
    elim (str_eq origin "") [
      | true ↦ add_origins parts matcher
      | false ↦ elim (parse_wildcard_origin origin) [
        | some pattern' ↦
            add_origins parts (record matcher { wildcards = matcher.wildcards ++ (pattern' ∷ []) })
        | none ↦ add_origins parts (record matcher {
          exact = if contains origin matcher.exact then matcher.exact else origin ∷ matcher.exact;
        })
      ]
    ]

-- `newCORSOriginMatcher`
unfoldable pub new_cors_origin_matcher : String → CorsOriginMatcher
new_cors_origin_matcher allowed_origins =
    let matcher : CorsOriginMatcher = record { exact = []; wildcards = [] } in
    if str_eq (trim_space allowed_origins) ""
    then matcher
    else add_origins (split 44 allowed_origins) matcher

-- `allowlistSize`
unfoldable pub allowlist_size : CorsOriginMatcher → ℕ
allowlist_size m = length m.exact + length m.wildcards

-- `strings.HasPrefix`
unfoldable pub has_prefix : String → String → Bool
has_prefix prefix s = elim (strip_prefix prefix s) [ none ↦ false | some rest ↦ true ]

-- the number of characters of a text
unfoldable pub size : String → ℕ
size String.[] = 0
size (String.◌∷◌ c s) = suc (size s)

-- the text before a place
unfoldable pub take_chars : ℕ → String → String
take_chars zero s = ""
take_chars (suc n) String.[] = ""
take_chars (suc n) (String.◌∷◌ c s) = String.◌∷◌ c (take_chars n s)

-- the text behind a place
unfoldable pub drop_chars : ℕ → String → String
drop_chars zero s = s
drop_chars (suc n) String.[] = ""
drop_chars (suc n) (String.◌∷◌ c s) = drop_chars n s

-- `s[from:to]` for a `to` within the text; `none` is the panic if `from` is behind it
unfoldable pub slice : ℕ → ℕ → String → Option String
slice from to s = if leb from to then some (take_chars (to - from) (drop_chars from s)) else none

-- `origin[len(pattern.prefix) : len(origin)-len(pattern.suffix)]`, where the origin has the suffix
unfoldable pub middle : WildcardOriginPattern → String → Option String
middle p origin = slice (size p.prefix) (size origin - size p.suffix) origin

-- the loop of `isAllowed`; `none` is a panic
unfoldable pub matches_any : List WildcardOriginPattern → String → Option Bool
matches_any [] origin = some false
matches_any (p ∷ ps) origin =
    if not (has_prefix p.prefix origin) || not (has_suffix p.suffix origin)
    then matches_any ps origin
    else elim (middle p origin) [
      | none ↦ none
      | some text ↦ if not (str_eq text "") then some true else matches_any ps origin
    ]

-- `isAllowed`; `none` is a panic
unfoldable pub is_allowed : CorsOriginMatcher → String → Option Bool
is_allowed m origin = if contains origin m.exact then some true else matches_any m.wildcards origin
