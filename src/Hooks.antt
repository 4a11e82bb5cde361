-- ===== src/Hooks.antt =====
-- pkg/hooks: the client of the hooks server, and the pipelines of an operation.
pub mod Header
pub mod Client
pub mod Pipeline
pub mod Tests
