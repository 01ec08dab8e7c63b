-- ===== src/Ops.antt =====
-- backend/internal/services/ops/service.go: jobs that run an operation on many nodes.
pub mod Types
pub mod Create
pub mod Schedule
pub mod Run
pub mod Stream
mod Tests
