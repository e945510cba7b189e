-- ===== src/Parser/ParseCache/Env.antt =====
-- internal/parser/cache_config.go: the configuration of the caches from the environment. `getenv` gives the
-- value of a variable, `strconv.Atoi` and `strconv.ParseInt` are the parameter `parse_int`.
use merm.Prelude.{
  ◌*◌, ◌≡◌, inl, inr, refl, String, ◌||◌, Option, none, some, arith, if◌then◌else◌, Option-cases,
  str_eq, ℤ, pos, pos_part, ltb_ℤ,
}
use merm.Strings.{trim_space}
use merm.Parser.ParseCache.{
  CacheConfig, default_cache_config, max_capacity, max_ttl, max_cache_bytes, effective_config,
}
use merm.Parser.ParseCache.Limits.{IsLimited, IsBounded, effective_config_same}

module _ (getenv : String → String) (parse_int : String → Option ℤ) where
  -- `cacheCapacityFromEnv` and `cacheBytesFromEnv`, for their greatest values
  unfoldable pub number_from_env : ℤ → String → ℤ → ℤ
  number_from_env most name fallback =
      let raw = trim_space (getenv name) in
      elim (parse_int raw) [
        | none ↦ fallback
        | some value ↦
            if str_eq raw "" || ltb_ℤ value (pos 0) || ltb_ℤ most value then fallback else value
      ]

  -- `cacheTTLFromEnv`
  unfoldable pub cache_ttl_from_env : String → ℤ → ℤ
  cache_ttl_from_env name fallback =
      let raw = trim_space (getenv name) in
      elim (parse_int raw) [
        | none ↦ fallback
        | some value ↦
            if str_eq raw "" || ltb_ℤ value (pos 0) || ltb_ℤ (pos 86400) value
            then fallback
            else pos (pos_part value * 1000000000)
      ]

  -- `CacheConfigFromEnv`
  unfoldable pub cache_config_from_env : CacheConfig
  cache_config_from_env =
      let cfg = default_cache_config in
      record {
        success_capacity =
            number_from_env max_capacity "PARSER_CACHE_SUCCESS_CAPACITY" cfg.success_capacity;
        success_ttl = cache_ttl_from_env "PARSER_CACHE_SUCCESS_TTL_SECONDS" cfg.success_ttl;
        syntax_capacity =
            number_from_env max_capacity "PARSER_CACHE_SYNTAX_CAPACITY" cfg.syntax_capacity;
        syntax_ttl = cache_ttl_from_env "PARSER_CACHE_SYNTAX_TTL_SECONDS" cfg.syntax_ttl;
        success_max_bytes =
            number_from_env max_cache_bytes "PARSER_CACHE_SUCCESS_MAX_BYTES" cfg.success_max_bytes;
        syntax_max_bytes =
            number_from_env max_cache_bytes "PARSER_CACHE_SYNTAX_MAX_BYTES" cfg.syntax_max_bytes;
      }

  number_from_env-IsLimited :
      (most : ℤ) (name : String) (fallback : ℤ)
      → IsLimited most fallback
      → IsLimited most (number_from_env most name fallback)
  unfolding number_from_env
  number_from_env-IsLimited most name fallback h =
      let raw = trim_space (getenv name) in
      elim (Option-cases (parse_int raw)) [
        | inl bad ↦ rw (bad, number_from_env) h
        | inr (value, good) ↦ rw (good, number_from_env) (ground (arith, h))
      ]

  cache_ttl_from_env-IsLimited :
      (name : String) (fallback : ℤ)
      → IsLimited max_ttl fallback
      → IsLimited max_ttl (cache_ttl_from_env name fallback)
  unfolding cache_ttl_from_env
  cache_ttl_from_env-IsLimited name fallback h =
      let raw = trim_space (getenv name) in
      elim (Option-cases (parse_int raw)) [
        | inl bad ↦ rw (bad, cache_ttl_from_env) h
        | inr (value, good) ↦ rw (good, cache_ttl_from_env) (ground (arith, h))
      ]

  cache_config_from_env-IsBounded : IsBounded cache_config_from_env
  unfolding cache_config_from_env
  cache_config_from_env-IsBounded = record {
    success_capacity = number_from_env-IsLimited max_capacity _ _ (refl, refl);
    success_ttl = cache_ttl_from_env-IsLimited _ _ (refl, refl);
    syntax_capacity = number_from_env-IsLimited max_capacity _ _ (refl, refl);
    syntax_ttl = cache_ttl_from_env-IsLimited _ _ (refl, refl);
    success_max_bytes = number_from_env-IsLimited max_cache_bytes _ _ (refl, refl);
    syntax_max_bytes = number_from_env-IsLimited max_cache_bytes _ _ (refl, refl);
  }

  -- Whatever the environment holds, the configuration that is read from it is within the limits, and is
  -- its own effective configuration.
  pub cache_config_from_env_kept :
      IsBounded cache_config_from_env
      × (effective_config cache_config_from_env ≡ cache_config_from_env)
  cache_config_from_env_kept = (
    cache_config_from_env-IsBounded,
    effective_config_same cache_config_from_env cache_config_from_env-IsBounded,
  )
