-- ===== src/Api.antt =====
-- internal/api: the parts of the HTTP service that keep state of their own or decide on their own.
pub mod RateLimit
pub mod AnalysisCache
pub mod Proxies
pub mod Origins
pub mod Headers
pub mod Buffer
pub mod Slots
pub mod Outcomes
mod Tests
