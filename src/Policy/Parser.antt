-- ===== src/Policy/Parser.antt =====
-- The shell parser of packages/policy/src/command-parser.ts, after its syntax check: composition,
-- words, the command behind `sudo` and `env`, its path targets, and the normalized operations. What
-- `node:path` and `realpathSync` answer is a parameter.
pub mod Split
pub mod Words
pub mod Operations
