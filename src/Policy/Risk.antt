-- ===== src/Policy/Risk.antt =====
-- `classifyRisk`: packages/policy/src/risk-classifier.ts, with the git rules in `Git`. A rule stands
-- for its id and its reason text.
pub mod Rules
pub mod Git
pub mod Classify
pub mod Push
pub mod Grant
