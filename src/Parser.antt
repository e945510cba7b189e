-- ===== src/Parser.antt =====
-- internal/parser: the result caches, the pool of parser processes, and the analysis of the source.
pub mod Cache
pub mod Pool
pub mod ParseCache
pub mod Source
