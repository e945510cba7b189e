-- ===== src/Parser/ParseCache/Limits.antt =====
-- internal/parser/cache_config.go: the limits of `EffectiveConfig`.
use merm.Prelude.{◌≡◌, refl, true, arith, ℤ, pos, leb_ℤ}
use merm.Parser.ParseCache.{
  CacheConfig, limited, effective_config, max_capacity, max_ttl, max_cache_bytes,
}

-- a value between 0 and a limit
abbrev pub IsLimited : ℤ → ℤ → Type 0
IsLimited most value = (leb_ℤ (pos 0) value ≡ true) × (leb_ℤ value most ≡ true)

-- Every field is between 0 and its limit.
pub record IsBounded (c : CacheConfig) : Type 0 where
  pub success_capacity : IsLimited max_capacity c.success_capacity
  pub success_ttl : IsLimited max_ttl c.success_ttl
  pub syntax_capacity : IsLimited max_capacity c.syntax_capacity
  pub syntax_ttl : IsLimited max_ttl c.syntax_ttl
  pub success_max_bytes : IsLimited max_cache_bytes c.success_max_bytes
  pub syntax_max_bytes : IsLimited max_cache_bytes c.syntax_max_bytes

limited-IsLimited :
    (value default most : ℤ) → IsLimited most default → IsLimited most (limited value default most)
unfolding limited
limited-IsLimited value default most h = ground arith

limited_same : (value default most : ℤ) → IsLimited most value → limited value default most ≡ value
unfolding limited
limited_same value default most h = ground arith

pub effective_config-IsBounded : (c : CacheConfig) → IsBounded (effective_config c)
unfolding effective_config
effective_config-IsBounded c = record {
  success_capacity = limited-IsLimited c.success_capacity _ max_capacity (refl, refl);
  success_ttl = limited-IsLimited c.success_ttl _ max_ttl (refl, refl);
  syntax_capacity = limited-IsLimited c.syntax_capacity _ max_capacity (refl, refl);
  syntax_ttl = limited-IsLimited c.syntax_ttl _ max_ttl (refl, refl);
  success_max_bytes = limited-IsLimited c.success_max_bytes _ max_cache_bytes (refl, refl);
  syntax_max_bytes = limited-IsLimited c.syntax_max_bytes _ max_cache_bytes (refl, refl);
}

-- A configuration within the limits is kept as it is.
pub effective_config_same : (c : CacheConfig) → IsBounded c → effective_config c ≡ c
unfolding effective_config
effective_config_same c b = ground (
  arith,
  limited_same c.success_capacity (pos 256) max_capacity b.success_capacity,
  limited_same c.success_ttl (pos 30000000000) max_ttl b.success_ttl,
  limited_same c.syntax_capacity (pos 256) max_capacity b.syntax_capacity,
  limited_same c.syntax_ttl (pos 15000000000) max_ttl b.syntax_ttl,
  limited_same c.success_max_bytes (pos 16777216) max_cache_bytes b.success_max_bytes,
  limited_same c.syntax_max_bytes (pos 2097152) max_cache_bytes b.syntax_max_bytes,
)

-- The effective configuration is within the limits, and is its own effective configuration.
pub effective_config_fixed :
    (c : CacheConfig)
    → IsBounded (effective_config c) × (effective_config (effective_config c) ≡ effective_config c)
effective_config_fixed c =
    let bounded = effective_config-IsBounded c in
    (bounded, effective_config_same (effective_config c) bounded)
