-- ===== src/Rules.antt =====
-- internal/rules: the configuration, and the lint rules.
pub mod Config
pub mod Selector
pub mod Settings
pub mod RuleId
pub mod Normalize
pub mod Keys
pub mod Flowchart
pub mod Sequence
pub mod Class
pub mod Loops
pub mod Cycles
pub mod Chains
pub mod Depth
pub mod State
mod Tests
