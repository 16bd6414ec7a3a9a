-- ===== src/Task.antt =====
-- The tasks of the agent: the life of a task (packages/domain/src/task.ts), the machine that guards
-- it (packages/task-engine/src/state-machine.ts) and the table that keeps it
-- (packages/persistence/src/repositories/task-repository.ts).
pub mod Status
pub mod Database
pub mod Store
mod Tests
