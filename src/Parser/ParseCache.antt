-- ===== src/Parser/ParseCache.antt =====
-- internal/parser: the pair of caches of cache.go, `parseCache`, and its configuration in
-- cache_config.go. The values are copied on the way in and out, which a value that nobody changes does
-- not need. The size of a value in JSON is a parameter, `size`; the metrics are left out.
pub mod Disjoint
pub mod Calls
pub mod Limits
pub mod Env
mod Tests
use merm.Prelude.{
  ℕ, ◌+◌, ◌*◌, String, Bool, Option, none, some, ◌⊎◌, inl, inr, if◌then◌else◌, ℤ, pos, eqb_ℤ, ltb_ℤ,
}
use merm.Parser.Cache.{Cache, new, get, set_weighted, delete_key}

-- `CacheConfig`; a time to live is in nanoseconds
pub record CacheConfig : Type 0 where
  pub success_capacity : ℤ
  pub success_ttl : ℤ
  pub syntax_capacity : ℤ
  pub syntax_ttl : ℤ
  pub success_max_bytes : ℤ
  pub syntax_max_bytes : ℤ

abbrev pub max_capacity : ℤ
max_capacity = pos 10000

-- 24 hours
abbrev pub max_ttl : ℤ
max_ttl = pos 86400000000000

-- 256 << 20
abbrev pub max_cache_bytes : ℤ
max_cache_bytes = pos 268435456

-- `DefaultCacheConfig`
abbrev pub default_cache_config : CacheConfig
default_cache_config = record {
  success_capacity = pos 256;
  success_ttl = pos 30000000000;
  syntax_capacity = pos 256;
  syntax_ttl = pos 15000000000;
  success_max_bytes = pos 16777216;
  syntax_max_bytes = pos 2097152;
}

-- one of the six tests of `EffectiveConfig`
unfoldable pub limited : ℤ → ℤ → ℤ → ℤ
limited value default most =
    if ltb_ℤ value (pos 0) then default else if ltb_ℤ most value then most else value

-- `EffectiveConfig`
unfoldable pub effective_config : CacheConfig → CacheConfig
effective_config c =
    let d = default_cache_config in
    record {
      success_capacity = limited c.success_capacity d.success_capacity max_capacity;
      success_ttl = limited c.success_ttl d.success_ttl max_ttl;
      syntax_capacity = limited c.syntax_capacity d.syntax_capacity max_capacity;
      syntax_ttl = limited c.syntax_ttl d.syntax_ttl max_ttl;
      success_max_bytes = limited c.success_max_bytes d.success_max_bytes max_cache_bytes;
      syntax_max_bytes = limited c.syntax_max_bytes d.syntax_max_bytes max_cache_bytes;
    }

-- the diagrams and the syntax errors
pub record ParseCache (D S : Type 0) : Type 0 where
  pub success : Cache D
  pub syntax : Cache S

-- `estimatedEntryBytes`, of the length of the JSON text, unless there is none
abbrev pub estimated_entry_bytes : Option ℕ → ℤ
estimated_entry_bytes none = pos 0
estimated_entry_bytes (some size) = pos (size * 2 + 128)

module _ {D S : Type 0} where
  -- `newParseCache`
  unfoldable pub new_parse_cache : CacheConfig → ParseCache D S
  new_parse_cache config =
      let c = effective_config config in
      record {
        success =
            new (if eqb_ℤ c.success_max_bytes (pos 0) then pos 0 else c.success_capacity)
              c.success_ttl c.success_max_bytes;
        syntax =
            new (if eqb_ℤ c.syntax_max_bytes (pos 0) then pos 0 else c.syntax_capacity) c.syntax_ttl
              c.syntax_max_bytes;
      }

  -- `parseCache.get`, with the time at which it asks each of the caches
  unfoldable pub parse_get : ℕ → ℕ → String → ParseCache D S → ParseCache D S × Option (D ⊎ S)
  parse_get now later key c =
      let (success, found, removed) = get now key c.success in
      let (syntax, failed, removed') = get later key c.syntax in
      elim found [
        | some d ↦ (record c { success = success }, some (inl d))
        | none ↦ elim failed [
          | some s ↦ (record { success = success; syntax = syntax }, some (inr s))
          | none ↦ (record { success = success; syntax = syntax }, none)
        ]
      ]

  -- `putSuccess`
  unfoldable pub put_success : ℕ → String → D → Option ℕ → ParseCache D S → ParseCache D S
  put_success now key diagram size c = record {
    syntax = delete_key key c.syntax;
    success = (set_weighted now key diagram (estimated_entry_bytes size) c.success).0;
  }

  -- `putSyntax`
  unfoldable pub put_syntax : ℕ → String → S → Option ℕ → ParseCache D S → ParseCache D S
  put_syntax now key syntax_err size c = record {
    success = delete_key key c.success;
    syntax = (set_weighted now key syntax_err (estimated_entry_bytes size) c.syntax).0;
  }
