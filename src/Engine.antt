-- ===== src/Engine.antt =====
-- internal/engine/engine.go: the rules of an engine, and what happens to their findings.
pub mod Suppress
pub mod Selectors
pub mod Order
pub mod Run
pub mod Fresh
mod Tests
