-- ===== src/Parser/ParseCache/Tests.antt =====
-- The pair of caches of internal/parser at a concrete input.
use merm.Prelude.{none, some, ◌≡◌, ℕ, List, [], ◌∷◌}
use merm.Parser.ParseCache.{effective_config, default_cache_config, new_parse_cache}
use merm.Parser.ParseCache.Env.{cache_config_from_env, cache_config_from_env_kept}
use merm.Parser.ParseCache.Limits.{IsBounded}
use merm.Parser.ParseCache.Calls.{
  Call, gets, puts_success, puts_syntax, run, IsDisjoint, run-new_parse_cache-IsDisjoint,
}

-- a text that is first parsed, then refused, then looked up
abbrev calls : List (Call ℕ ℕ)
calls = puts_success 0 "a" 1 (some 10) ∷ puts_syntax 1 "a" 2 none ∷ gets 2 3 "a" ∷ []

run-new_parse_cache-IsDisjoint_example :
    IsDisjoint (run (new_parse_cache default_cache_config) calls)
run-new_parse_cache-IsDisjoint_example = run-new_parse_cache-IsDisjoint default_cache_config calls

-- an environment with the same value everywhere, which is no number
cache_config_from_env_kept_example :
    IsBounded (cache_config_from_env (λ name. "all") (λ raw. none))
    × (effective_config (cache_config_from_env (λ name. "all") (λ raw. none))
        ≡ cache_config_from_env (λ name. "all") (λ raw. none))
cache_config_from_env_kept_example = cache_config_from_env_kept (λ name. "all") (λ raw. none)
