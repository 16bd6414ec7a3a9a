-- ===== src/Policy/Engine.antt =====
-- `PolicyEngine`: packages/policy/src/policy-engine.ts. The SHA-256 of the JSON text is a parameter,
-- a function of the values that the text is made of.
use gram_coding_agent.Base.{List}
use gram_coding_agent.Policy.Text.{Text}
use gram_coding_agent.Policy.Parser.Operations.{NormalizedOperation}
use gram_coding_agent.Policy.Risk.Rules.{PolicyContext, PolicyDecisionKind, RuleId}
use gram_coding_agent.Policy.Risk.Classify.{classify_risk}

-- what is hashed: the context, and the executable, arguments and targets of the operation
pub record Hashed : Type 0 where
  pub context : PolicyContext
  pub executable : Text
  pub args : List Text
  pub canonical_targets : List Text

pub record PolicyDecision : Type 0 where
  pub kind : PolicyDecisionKind
  pub rule_id : RuleId
  pub operation_hash : Text

abbrev pub hashed : NormalizedOperation → PolicyContext → Hashed
hashed op context = record {
  context = context;
  executable = op.executable;
  args = op.args;
  canonical_targets = op.canonical_targets;
}

unfoldable pub evaluate : (Hashed → Text) → NormalizedOperation → PolicyContext → PolicyDecision
evaluate sha256 op context =
    let risk = classify_risk op context in
    record { kind = risk.kind; rule_id = risk.rule_id; operation_hash = sha256 (hashed op context) }
