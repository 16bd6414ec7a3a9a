-- ===== src/Lock.antt =====
-- The lock of a repository: its lease in the database
-- (packages/persistence/src/repositories/lock-repository.ts), and the service that adds a lock file
-- and a heartbeat (packages/repo-lock/src).
pub mod Store
pub mod Service
mod Tests
