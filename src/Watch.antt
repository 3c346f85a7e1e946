-- ===== src/Watch.antt =====
-- internal/predicate and internal/handler: which watch events reach the controllers, and which
-- requests they become.
pub mod Events
pub mod Predicates
pub mod Handlers
pub mod Observed
pub mod Queue
pub mod Requests
pub mod Storage
pub mod Secrets
pub mod Restored
