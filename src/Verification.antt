-- ===== src/Verification.antt =====
-- The verification of a task: its plan and checks in the database
-- (packages/persistence/src/repositories/verification-repository.ts), and the planner and runner of
-- packages/verification/src.
pub mod Evidence
pub mod Rows
pub mod Store
pub mod Classifier
pub mod Planner
pub mod Completion
pub mod Snapshot
pub mod Runner
pub mod Publication
mod Tests
