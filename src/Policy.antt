-- ===== src/Policy.antt =====
-- What a command may do: the shell parser (packages/policy/src/command-parser.ts), the risk
-- classifier (risk-classifier.ts) and the policy engine (policy-engine.ts), and the command runner
-- that obeys them (packages/shell/src/command-runner.ts).
pub mod Text
pub mod Syntax
pub mod Parser
pub mod Risk
pub mod Engine
pub mod Worktree
mod Tests
