-- ===== src/Backup.antt =====
-- backend/internal/services/backup: jobs that back a node up to a storage target.
pub mod Types
pub mod Job
pub mod Source
pub mod Storage
pub mod Shell
pub mod Names
pub mod Log
pub mod Rows
pub mod Queue
pub mod Collect
pub mod Upload
pub mod Retention
pub mod Finish
pub mod Run
mod Tests
