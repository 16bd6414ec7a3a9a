-- ===== src/Lib.antt =====
-- Verification of the core of the coding agent: what a task may do, what a command may do, who holds a
-- repository, and in which order work is verified, published and completed.
--
-- A task is a row of the database with a status. The scheduler lists the runnable tasks; a run of a task
-- takes the lock of its repository, changes the code through commands, verifies, publishes, observes CI
-- and completes the task. Each command passes the parser, the policy, the approvals and the worktree
-- guard before a process is started.
--
-- Which file models which part:
--   Task.Status        packages/domain/src/task.ts: `canTransitionTaskStatus` is `can_transition_task_status`
--   Task.Store         packages/persistence/src/repositories/task-repository.ts, a method a step on the
--                      database; `completeLocalCommand` is in Task.Store.Local and `listRunnable` in
--                      Task.Store.Runnable; packages/task-engine/src/state-machine.ts is `guarded_transition`
--   Task.Database      the rows that the repositories share, with the columns that the code reads
--   Lock.Store         packages/persistence/src/repositories/lock-repository.ts
--   Lock.Service       packages/repo-lock/src/repo-lock-service.ts and lease-heartbeat.ts, on the database
--                      and the directory of lock files; a lease handle is a record
--   Approval           packages/persistence/src/repositories/approval-repository.ts
--   Policy.Syntax, Policy.Parser   packages/policy/src/command-parser.ts
--   Policy.Risk, Policy.Engine     packages/policy/src/risk-classifier.ts and policy-engine.ts
--   Policy.Worktree    packages/policy/src/worktree-path.ts
--   Shell              packages/shell/src/command-runner.ts: `CommandRunner.run` is `Shell.Run.run`
--   Publishing         packages/publishing/src/publishing-service.ts
--   Runner             packages/task-engine/src/task-runner.ts: `run`, and `runRepairCycle` in Runner.Repair
--   Checks             packages/github/src/checks-service.ts: `ChecksService`, and `PersistentCiCompletion`
--                      in Checks.Completion
--   Verification.Evidence, Rows, Store   packages/persistence/src/repositories/verification-repository.ts:
--                      `boundPlan` and its calls are in Store.Assertions and Store.Bound, `finishCheck` is
--                      in Store.Finish, and Store.History has the calls in any order
--   Verification.Classifier   packages/verification/src/change-classifier.ts
--   Verification.Planner      packages/verification/src/verification-planner.ts: `planProduction` is
--                      `plan_production`
--   Verification.Completion   packages/verification/src/completion-evaluator.ts
--   Verification.Runner       packages/verification/src/verification-runner.ts, over its ports
--   Verification.Publication   apps/agent/src/verified-publishing.ts
--   Scheduler          apps/agent/src/task-scheduler.ts, a step relation on its flags and sets
--   Table              the statements on a table that the repositories run
--   Base               shared names, results, steps with a state, and calls on ports
--
-- State and effects. A method of a repository is a function from the database to a result and the new
-- database; a transaction puts back the state where its body throws. A service over ports is a function
-- of the calls made so far: each port answers as a function of the earlier calls, or throws, and each
-- call is appended to the list, so the list is the order of effects. The scheduler's event loop is a
-- relation: starts, ticks, stops and settled runs follow each other in any order. Texts that are parsed are lists of
-- code units; other texts are strings. Instants are milliseconds and are arguments, as are the drawn
-- ids and tokens. What the code takes from node:path, the file system, SHA-256, JSON and git is a
-- parameter.
--
-- Bounds. The walk to the nearest existing ancestor of a path has the fuel 512 of the source, and fails
-- there as the source does. The loop over the attempts of a CI observation recurses on the attempts
-- left. All other loops recurse on their list.
--
-- Not modelled: the collector of verification evidence, the coordinator, the other repositories, git and
-- GitHub clients, files and workspaces, redaction and logging, the MCP server, the applications
-- and the platform helpers. Of the modelled parts, reason and message texts, the environment of a child
-- process and its creation are left out.
pub mod Base
pub mod Table
pub mod Task
pub mod Lock
pub mod Approval
pub mod Policy
pub mod Shell
pub mod Publishing
pub mod Runner
pub mod Checks
pub mod Verification
pub mod Scheduler
