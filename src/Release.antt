-- ===== src/Release.antt =====
-- The release scripts: reviewed evidence, its certificate, and the promotion of a candidate.
pub mod Patterns
pub mod Report
pub mod Attempts
pub mod Reviewed
pub mod Coverage
pub mod Resolved
pub mod Accepted
pub mod Certificate
pub mod Certified
pub mod Bound
pub mod Controller
pub mod Gate
pub mod Delivery
pub mod Authorize
mod Examples
